-- ===== src/Privacy/Scrub/Witness.antt =====
-- The theorem on the scrub, at two raw batches: one goes, one is written again.
