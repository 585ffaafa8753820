-- ===== src/Net.antt =====
-- net/v1alpha1: the derived addresses of the direct links and of the interconnect.
pub mod Link
