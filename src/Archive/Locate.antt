-- ===== src/Archive/Locate.antt =====
-- `zip_name_locate` and `zip_get_name` on well-formed archives.
use allvm_tools.Hash.Delete.{lookup-eq}
use allvm_tools.Archive.SetName.{located_at}
use allvm_tools.Flags.{no_flags}
use allvm_tools.Archive.{name_locate, Room, Archive, ok, get_name}
use allvm_tools.Archive.Inv.{IsValid, current, get_name-Named}
use allvm_tools.Base.{ℕ, ◌≡◌, subst, sym, ap, ◌∙◌, some, List}

-- In a well-formed archive, the entry at which a name is located without flags has that name, and
-- reading it changes nothing.
pub get_name-name_locate :
    (room later : Room) (za za' : Archive) (name : List ℕ) (i : ℕ)
    → IsValid za
    → name_locate room za (some name) no_flags ≡ (ok i, za')
    → get_name later za' i no_flags ≡ (ok name, za)
unfolding name_locate
get_name-name_locate room later za za' name i v h =
    let at =
      located_at (current za.names name) i
        (sym (lookup-eq za.names v.table name no_flags) ∙ ap (λ p. p.0) h) in
    let (lt, named) = v.located name i at in
    subst (λ x. get_name later x i no_flags ≡ (ok name, za)) (ap (λ p. p.1) h)
      (get_name-Named later za i name lt named)
