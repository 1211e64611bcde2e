-- ===== src/Domain/Examples.antt =====
-- The action graph at one of its edges.
