-- ===== src/Consultation.antt =====
-- app/consultation: the package that a user hands to a developer, with every secret masked, and the
-- life of a consultation.
pub mod Disclosure
pub mod Masking
pub mod Package
pub mod Service
