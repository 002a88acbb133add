-- ===== src/Uade.antt =====
-- internal/uade: the search on the enrolment site. The transport and the HTML are libraries'; here
-- are the parser of partial updates, the filter of the rows and the classes of outcomes.
pub mod Delta
pub mod Rows
mod Examples
