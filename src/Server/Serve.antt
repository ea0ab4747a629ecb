-- ===== src/Server/Serve.antt =====
-- The worker of a connection in src/evr-glacier-storage.c answers a whole conversation.
