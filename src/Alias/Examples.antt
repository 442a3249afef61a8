-- ===== src/Alias/Examples.antt =====
-- Model names and their aliases.
use nfrx.Prelude.{none, refl, some, ◌≡◌}
use nfrx.Alias.{alias_key}

alias_key_suffix : alias_key "llama:8b-q4" ≡ some "llama:8b"
unfolding alias_key
alias_key_suffix = refl

alias_key_plain : alias_key "llama" ≡ none
unfolding alias_key
alias_key_plain = refl

alias_key_dash : alias_key "llama:8b-" ≡ none
unfolding alias_key
alias_key_dash = refl
