-- ===== src/Arrival.antt =====
-- A hub that joins the gateway, as the other hubs and their clients see it: Gateway.Joining, whose broadcast by TCP the
-- other hubs read as in Departure, and Relay.
pub mod Enrolled
pub mod Listed
mod Tests
