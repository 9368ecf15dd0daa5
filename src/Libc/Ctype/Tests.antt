-- ===== src/Libc/Ctype/Tests.antt =====
-- The conversions at single characters.
