-- ===== src/Common/Tests.antt =====
-- The properties of the core types at concrete values (include/oneplog/common.hpp).
