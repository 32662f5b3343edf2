-- ===== src/Table.antt =====
-- awscli/table.py and `TableFormatter` of awscli/formatter.py: responses laid out as tables.
pub mod Cells
pub mod Section
pub mod Render
pub mod Formatter
mod Tests
