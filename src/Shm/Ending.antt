-- ===== src/Shm/Ending.antt =====
-- The end of the consumer of 05/main.c.
