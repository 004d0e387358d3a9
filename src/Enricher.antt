-- ===== src/Enricher.antt =====
-- app/enricher.py: lines of the producer become full subjects, with the data of the cabinet.
pub mod Cabinet
pub mod Values
pub mod Document
pub mod Line
pub mod Intake
pub mod Shelf
pub mod Process
pub mod Run
pub mod Summary
