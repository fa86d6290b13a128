-- ===== src/IniFiles/RoundTrip.antt =====
-- SaveToFile and then Open: the sections as they were.
pub mod Lines
pub mod Comments
pub mod Records
pub mod Sections
