-- ===== src/LocalMap/History.antt =====
-- A local map after any sequence of calls that put absent keys only.
use p2p_cluster.Common.{
  ℕ, ◌≡◌, ◌≢◌, refl, ap, subst, ◌∙◌, Bool-cases, ◌==◌, Option, none, some, inl, inr, arith,
}
use p2p_cluster.Common.Memory.{update}
use p2p_cluster.LocalMap.{
  LmMap, lm_map_init, lm_map_put, lm_map_get, lm_map_del, get_main, get_extra,
}
use p2p_cluster.LocalMap.Slots.{clean_nil, clean_cons, occurs}
use p2p_cluster.LocalMap.Laws.{
  IsMap, Stored, stored, lm_map_put_lem, Deleted, deleted, lm_map_del_lem,
}

-- What the map should hold: a value for some of the keys
abbrev pub Held : Type 0
Held = ℕ → Option ℕ

-- The calls, from lm_map_init on: a key is put where it is absent, and deleted where it is present.
pub data History : LmMap → Held → Type 0 where
  started : History lm_map_init (λ key. none)
  put :
      {map map' : LmMap} {held : Held} (key value : ℕ)
      → History map held
      → key ≢ 0
      → value ≢ 0
      → held key ≡ none
      → lm_map_put map key value ≡ some map'
      → History map' (update held key (some value))
  del :
      {map map' : LmMap} {held : Held} (key value value' : ℕ)
      → History map held
      → held key ≡ some value
      → lm_map_del map key ≡ some (value', map')
      → History map' (update held key none)

-- Lookups find what the map should hold.
pub record Agrees (map : LmMap) (held : Held) : Type 0 where
  pub valid : IsMap map
  pub finds : (key : ℕ) → lm_map_get map key ≡ held key

pub init-IsMap : IsMap lm_map_init
unfolding lm_map_init occurs
init-IsMap i = record {
  main = clean_cons refl (clean_cons refl (clean_cons refl clean_nil));
  extra = clean_nil;
  once = λ key ne. ground arith;
}

pub init-get : (key : ℕ) → lm_map_get lm_map_init key ≡ none
unfolding lm_map_init lm_map_get get_main get_extra
init-get key = ground arith

changed :
    (map map' : LmMap) {held : Held} (key : ℕ) (now : Option ℕ)
    → ((n : ℕ) → lm_map_get map n ≡ held n)
    → lm_map_get map' key ≡ now
    → ((n : ℕ) → n ≢ key → lm_map_get map' n ≡ lm_map_get map n)
    → (n : ℕ) → lm_map_get map' n ≡ update held key now n
changed map map' key now finds self others n = elim (Bool-cases (key == n)) [
  | inl e ↦ let q : n ≡ key = ground arith in rw e (ap (lm_map_get map') q ∙ self)
  | inr d ↦ rw d (others n (ground arith) ∙ finds n)
]

put-Agrees :
    {map map' : LmMap} {held : Held} (key value : ℕ)
    → Agrees map held
    → Stored key value map (some map')
    → Agrees map' (update held key (some value))
put-Agrees {map} {map'} key value a (stored v self others) = record {
  valid = v;
  finds = changed map map' key (some value) a.finds self others;
}

del-Agrees :
    {map map' : LmMap} {held : Held} (key value value' : ℕ)
    → Agrees map held
    → Deleted key value map (some (value', map'))
    → Agrees map' (update held key none)
del-Agrees {map} {map'} key value value' a (deleted v self others) = record {
  valid = v;
  finds = changed map map' key none a.finds self others;
}

-- After any sequence of calls on a new map that put keys other than 0, with values other than 0,
-- only where they are absent, and delete keys only where they are present, `lm_map_get` finds for
-- each key the value that was put last and not deleted since, or nothing where there is none.
pub History-Agrees : {map : LmMap} {held : Held} → History map held → Agrees map held
History-Agrees started = record { valid = init-IsMap; finds = init-get }
History-Agrees (put {map} {map'} key value h k nz absent e) =
    let a = History-Agrees h in
    put-Agrees key value a (
      subst (Stored key value map) e
        (lm_map_put_lem map key value a.valid k nz (a.finds key ∙ absent)))
History-Agrees (del {map} {map'} key value value' h found e) =
    let a = History-Agrees h in
    del-Agrees key value value' a
      (subst (Deleted key value map) e (lm_map_del_lem map key value a.valid (a.finds key ∙ found)))
