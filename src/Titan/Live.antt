-- ===== src/Titan/Live.antt =====

