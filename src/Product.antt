-- ===== src/Product.antt =====
-- app/product: the drafts of requirements and questions, and the agent that completes them.
pub mod Backlogs
pub mod Bounds
pub mod CoreAgent
pub mod SpecificationAgent
pub mod Schemas
pub mod Questions
pub mod Refinement
pub mod Known
pub mod Rounds
pub mod Answers
pub mod Classifier
pub mod Gates
pub mod Backlog
pub mod Workflow
