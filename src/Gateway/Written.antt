-- ===== src/Gateway/Written.antt =====
-- Where no write fails, the code with its exceptions is the code without them.
use blockcore_gateway.Gateway.{Gateway}
