-- ===== src/Product/Workflow.antt =====
-- app/product/workflow.py: the methods of ProductDefinitionWorkflow as actions on the project and the
-- tables (Action, Store, Consult, Specify, Draft, Handlers), and what they keep and where they leave the
-- project.
pub mod Action
pub mod Store
pub mod Conflicts
pub mod Consult
pub mod Specify
pub mod Draft
pub mod Handlers
pub mod Frames
pub mod Rules
pub mod Keeps
pub mod Decides
pub mod Outcomes
pub mod Saves
pub mod Rests
pub mod Returns
pub mod Replies
