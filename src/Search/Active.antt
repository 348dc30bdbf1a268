-- ===== src/Search/Active.antt =====
-- The limit of active searches of internal/searchmgr/manager.go.
