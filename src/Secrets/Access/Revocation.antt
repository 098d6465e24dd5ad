-- ===== src/Secrets/Access/Revocation.antt =====
-- A change of the policy revokes the share tokens that were signed before it.
