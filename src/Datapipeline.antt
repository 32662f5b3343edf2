-- ===== src/Datapipeline.antt =====
-- awscli/customizations/datapipeline/translator.py: pipeline definitions and the objects of the API.
pub mod Translator
pub mod Dictionary
pub mod RoundTrip
pub mod Parameters
pub mod TextOnly
mod Tests
