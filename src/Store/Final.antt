-- ===== src/Store/Final.antt =====
-- Runs of the calls of internal/store/releases.go: the numbers stay in order, and what is closed stays closed.
