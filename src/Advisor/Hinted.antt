-- ===== src/Advisor/Hinted.antt =====
-- The statement with the hypothetical indexes keeps every other byte.
use optimizer_canary_service.Base.{◌≡◌, ◌⊎◌, false, List, [], ◌∷◌}
use optimizer_canary_service.Text.{Bytes, codes}
use optimizer_canary_service.Text.Trim.{trim_space}
use optimizer_canary_service.Text.Search.{contains}
use optimizer_canary_service.Text.Split.{join}
use optimizer_canary_service.Compare.Binding.Result.{Bound}

-- Without hints the statement, and with some the statement with all of them in one comment behind its
-- main SELECT, or nothing where they are blank.
abbrev pub Hinted : Bytes → List Bytes → Bytes → Type 0
Hinted statement [] out = out ≡ statement
Hinted statement (hint ∷ hints) out =
    let text = trim_space (join (hint ∷ hints) (codes " ")) in
    ((text ≡ []) × (out ≡ [])) ⊎ ((contains text (codes "*/") ≡ false) × Bound statement text out)
