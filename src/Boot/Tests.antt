-- ===== src/Boot/Tests.antt =====
-- The terminals of the sample kernel, set up.
