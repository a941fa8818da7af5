-- ===== src/Shell/Tests.antt =====
-- Quotation of small texts.
use node_nexus_api.Prelude.{codes, ◌≡◌, refl}
use node_nexus_api.Shell.{is_safe, escape, quote}

quote-unsafe : quote (codes "it's;") ≡ codes "'it'\"'\"'s;'"
unfolding quote is_safe escape
quote-unsafe = refl
