-- ===== src/Discovery/Faults.antt =====
-- Reading outside of the receive buffer.
