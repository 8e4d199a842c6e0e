-- ===== src/Http.antt =====
-- examples/http_proxy.rs: an HTTP/1.1 reverse proxy over pooled upstream connections.
--
-- A byte is a number and a text its list of bytes. What a socket's reads answer from now on is part
-- of a connection's state: a list of pieces and errors, at whose end the peer has closed.
pub mod Head
pub mod Framed
pub mod Find
pub mod Framing
pub mod Arrival
pub mod Lengths
pub mod Proxy
pub mod Exchange
pub mod Origin
pub mod Lines
pub mod Written
pub mod Reply
pub mod Serving
pub mod Relay
