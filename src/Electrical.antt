-- ===== src/Electrical.antt =====
-- What the program knows of electrical facts: quantities with units (domain/quantities.py), the
-- conditions under which they hold (domain/specification_conditions.py), and the facts and
-- requirements of each category (domain/specifications.py).
pub mod Entries
pub mod Decimals
pub mod Quantities
pub mod Conditions
pub mod Results
pub mod Json
pub mod Catalogue
pub mod Qualifiers
pub mod Specifications
pub mod Facts
pub mod Requirements
pub mod Evaluation
