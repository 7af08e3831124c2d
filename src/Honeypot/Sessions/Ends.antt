-- ===== src/Honeypot/Sessions/Ends.antt =====
-- The fuel of the loops of all the services is enough.
