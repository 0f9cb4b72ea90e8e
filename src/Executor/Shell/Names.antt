-- ===== src/Executor/Shell/Names.antt =====
-- What sanitizeName leaves of a caller's file name.
