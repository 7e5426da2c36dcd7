-- ===== src/Usage/Combine/Certain.antt =====
-- What the view of combineWithRegistry sums (internal/usage/usage.go).
