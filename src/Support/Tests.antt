-- ===== src/Support/Tests.antt =====
-- "ab" against "a\xff", with a bound of 2.
