-- ===== src/Socket.antt =====
-- zmqpp/socket.hpp and socket.cpp, for libzmq 4.2: sending and receiving, and the socket options.
pub mod Transfer
mod Steps
pub mod Sending
pub mod Refusals
pub mod Receiving
pub mod Delivery
pub mod Signalling
pub mod Options
pub mod Endpoints
pub mod Topics
