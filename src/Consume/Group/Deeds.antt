-- ===== src/Consume/Group/Deeds.antt =====
-- The deeds of a whole run of a consumer.
