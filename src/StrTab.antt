-- ===== src/StrTab.antt =====
-- COMPARATOR and U_STR_TAB (src/utilities/u_str_tab.h, src/utilities/u_str_tab.cxx).
pub mod Order
pub mod Table
pub mod Names
pub mod Cache
pub mod Refines
pub mod Run
