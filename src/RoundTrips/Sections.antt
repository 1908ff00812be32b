-- ===== src/RoundTrips/Sections.antt =====
-- Sections of a PAT or a PMT, over the times of `dvb.go`. The readers of the other tables, which a PAT
-- or a PMT does not call, may be any.
