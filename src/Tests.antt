-- ===== src/Tests.antt =====
-- Runs of the code on concrete inputs, which also show that the theorems' hypotheses can hold.
mod Gny
mod Text
mod Mux
mod Loops
mod Toys
mod Proxy
mod Requests
mod Files
