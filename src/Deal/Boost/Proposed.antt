-- ===== src/Deal/Boost/Proposed.antt =====
-- filclient.go: what `SendProposalV120` proposes, and what its two results say.
