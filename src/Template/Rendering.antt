-- ===== src/Template/Rendering.antt =====
-- When a template renders, and with which error it does not.
