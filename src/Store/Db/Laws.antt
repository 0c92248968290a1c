-- ===== src/Store/Db/Laws.antt =====
-- What one update of a collection does to every lookup in it.
use trans_f.Prelude.{String, ◌≡◌, refl, ◌≢◌, Option, none, some, List, [], ◌∷◌, arith, eq_iff}
use trans_f.Prelude.Lists.{find, modify, find-modify, find-passes}
use trans_f.Store.Db.{Db, Table, IsTable, has_id, lookup, update, patch_found}

module _ {A : Type 0} (t : Table A) (patch : A → A) where
  abbrev pub KeepsId : Type 0
  KeepsId = (a : A) → t.id_of (patch a) ≡ t.id_of a

  pub find-modify_ne :
      (id j : String) (xs : List A)
      → KeepsId
      → id ≢ j
      → find (has_id t j) (modify (has_id t id) patch xs) ≡ find (has_id t j) xs
  unfolding find modify
  find-modify_ne id j [] keeps h = refl
  find-modify_ne id j (x ∷ xs) keeps h = ground (
    arith,
    find-modify_ne id j xs keeps h,
    keeps x,
    eq_iff (t.id_of x) id,
    eq_iff (t.id_of x) j,
    eq_iff (t.id_of (patch x)) j,
  )

  module _ (lawful : IsTable t) where
    -- The record under the updated name is the patched one.
    pub lookup-update_self :
        (id : String) (db : Db) (a : A)
        → KeepsId
        → lookup t id db ≡ some a
        → lookup t id (update t id patch db).1 ≡ some (patch a)
    unfolding update
    lookup-update_self id db a keeps h =
        rw (h, patch_found)
          (rw lawful.read-write (
            find-modify (has_id t id) patch (t.read db) a h
              (rw (keeps a) (find-passes (has_id t id) (t.read db) a h))))

    -- Every other name leads where it led.
    pub lookup-update_ne :
        (id j : String) (db : Db)
        → KeepsId
        → id ≢ j
        → lookup t j (update t id patch db).1 ≡ lookup t j db
    unfolding update
    lookup-update_ne id j db keeps h = go (lookup t id db)
      where
        go : (o : Option A) → lookup t j (patch_found t o id patch db).1 ≡ lookup t j db
        go none = refl
        go (some a) = rw lawful.read-write (find-modify_ne id j (t.read db) keeps h)
