-- ===== src/Worker/Folders/Lookup.antt =====
-- What the table of worker/middleware/foldermapper.go answers after `store`, and which key
-- `createFolder` takes.
use aerc.Prelude.{
  has_prefix, ℕ, ◌≤◌, ◌<◌, ◌≡◌, ◌≢◌, refl, true, some, List, [], ◌∷◌, ◌++◌, length, drop, arith,
  Bool-cases, inl, inr, eqb, list_eq, list_eqb_iff, nat_eq,
}
use aerc.Prelude.Map
use aerc.Worker.Folders.{
  Name, FolderMapper, incoming, outgoing, store, create_folder, find_value, apply, longest_from,
}

pub get-find_value :
    (d k : Name) (t : List (Name × Name))
    → Map.IsDistinct t
    → find_value d t ≡ some k
    → Map.get k t ≡ some d
get-find_value d k [] u h = absurd (ground arith)
get-find_value d k ((j, v) ∷ t) u h =
    ground (arith, get-find_value d k t, list_eqb_iff v d, list_eqb_iff j k, Map.get_of_not_has j t)

pub find_value-get :
    (d k : Name) (t : List (Name × Name))
    → Map.get k t ≡ some d
    → (k' : Name) × (find_value d t ≡ some k')
find_value-get d k [] h = absurd (ground arith)
find_value-get d k ((j, v) ∷ t) h = elim (Bool-cases (eqb v d)) [
  | inl here ↦ (j, ground arith)
  | inr later ↦
      let (k', e) = find_value-get d k t (ground (arith, list_eqb_iff v d)) in (k', ground arith)
]

-- Where the table shows a folder of the server under some name, the name that the user sees for it
-- leads back to it, whichever of its names the loop over the table comes to first.
pub incoming-outgoing :
    (f : FolderMapper) (k d : Name)
    → Map.IsDistinct f.table
    → Map.get k f.table ≡ some d
    → incoming f (outgoing f d) ≡ d
unfolding incoming outgoing
incoming-outgoing f k d u h =
    let (k', e) = find_value-get d k f.table h in
    let g = get-find_value d k' f.table u e in ground arith

-- `store` shows a folder under the name that the mapping gives it, under which it is then found, and
-- changes no other entry of the table.
pub store_lem :
    (f : FolderMapper) (d k : Name)
    → (incoming (store d f) (apply f.mapping f.order d) ≡ d)
      × (k ≢ apply f.mapping f.order d → incoming (store d f) k ≡ incoming f k)
unfolding incoming store
store_lem f d k =
    let e = Map.get-put (apply f.mapping f.order d) k d f.table in
    let e' = Map.get-put (apply f.mapping f.order d) (apply f.mapping f.order d) d f.table in
    (
      ground (arith, e', list_eqb_iff (apply f.mapping f.order d) (apply f.mapping f.order d)),
      λ ne. ground (arith, e, ne, list_eqb_iff (apply f.mapping f.order d) k),
    )

-- Two prefixes of one length are one.
prefix_unique :
    (s p q : Name) → has_prefix s p ≡ true → has_prefix s q ≡ true → length p ≡ length q → p ≡ q
prefix_unique s [] [] a b e = refl
prefix_unique s [] (y ∷ q) a b e = absurd (omega arith)
prefix_unique s (x ∷ p) [] a b e = absurd (omega arith)
prefix_unique [] (x ∷ p) (y ∷ q) a b e = absurd (ground arith)
prefix_unique (z ∷ s) (x ∷ p) (y ∷ q) a b e = ground (arith, prefix_unique s p q)

-- No key of the table that begins the name is longer than `n`.
abbrev pub NoLonger : Name → List (Name × Name) → ℕ → Type 0
NoLonger s [] n = Unit
NoLonger s ((k, v) ∷ t) n = (has_prefix s k ≡ true → length k ≤ n) × NoLonger s t n

longest_from-stay :
    (s k : Name) (t : List (Name × Name))
    → NoLonger s t (length k)
    → longest_from s t (length k, k) ≡ (length k, k)
longest_from-stay s k [] h = refl
longest_from-stay s k ((j, v) ∷ t) h = ground (arith, longest_from-stay s k t, h.0, h.1)

longest_from-reach :
    (s k : Name) (t : List (Name × Name)) (acc : ℕ × Name)
    → acc.0 < length k
    → has_prefix s k ≡ true
    → Map.has k t ≡ true
    → NoLonger s t (length k)
    → longest_from s t acc ≡ (length k, k)
longest_from-reach s k [] acc l p i h = absurd (ground arith)
longest_from-reach s k ((j, v) ∷ t) acc l p i h = ground (
  arith,
  longest_from-stay s k t,
  longest_from-reach s k t acc,
  longest_from-reach s k t (length j, j),
  prefix_unique s j k,
  list_eqb_iff j k,
  h.0,
  h.1,
)

longest_from-none :
    (s : Name) (t : List (Name × Name)) → NoLonger s t 0 → longest_from s t (0, []) ≡ (0, [])
longest_from-none s [] h = refl
longest_from-none s ((j, v) ∷ t) h = ground (arith, longest_from-none s t, h.0, h.1)

-- In whatever order the loop visits the table, `createFolder` puts the folder of the server in place
-- of the longest shown name that begins the new one; where none but the empty name does, it changes
-- nothing.
pub create_folder_lem :
    (t : List (Name × Name)) (s : Name)
    → ((k v : Name)
        → k ≢ []
        → Map.get k t ≡ some v
        → has_prefix s k ≡ true
        → NoLonger s t (length k)
        → create_folder t s ≡ v ++ drop (length k) s)
      × (NoLonger s t 0 → create_folder t s ≡ s)
unfolding create_folder
create_folder_lem t s = (
  λ k v ne e p h.
      let there : Map.has k t ≡ true = ground (arith, Map.get_of_not_has k t) in
      let long : 0 < length k = ground arith in
      ground (arith, longest_from-reach s k t (0, []) long p there h, list_eqb_iff k []),
  λ h. ground (arith, longest_from-none s t h),
)
