-- ===== src/Agent/Environment.antt =====
-- What `mergeEnv` of internal/node/executor.go gives to a job's process.
use slurmlite.Agent.Executor.{key_of, index_keys, set_at, merge_from, merge_env}
use Prim.Native.Char.{Char, code}
use Prim.Native.String.append
use Prim.Native.String as Text
use slurmlite.Prelude.{
  ◌==◌, Map, lookup, insert, lookup-insert_self, lookup-insert_ne, lookup-insert_inv, dec_string,
  Bool-cases, Option-cases, some_inj, String, List, [], ◌∷◌, ◌++◌, length, Option, none, some, ◌≡◌,
  ◌≢◌, refl, sym, ap, subst, ◌∙◌, ◌⊎◌, ◌<◌, ◌≤◌, lookup-insert, inl, inr, ℕ, zero, suc, ◌+◌, arith,
  length-append, append_assoc, append_empty,
}

abbrev pub entry : String → String → String
entry k v = Text.◌++◌ k (Text.◌++◌ "=" v)

entry-empty : (v : String) → entry "" v ≡ Text.◌∷◌ "=" (Text.◌++◌ "" v)
entry-empty v = append.nil (Text.◌++◌ "=" v) ∙ append.cons "=" "" v

entry-letter : (c : Char) (s v : String) → entry (Text.◌∷◌ c s) v ≡ Text.◌∷◌ c (entry s v)
entry-letter c s v = append.cons c s (Text.◌++◌ "=" v)

-- A key without `=` is the key of its entry.
key_of-entry : (k v : String) → key_of k ≡ none → key_of (entry k v) ≡ some k
unfolding key_of
key_of-entry Text.[] v h = ap key_of (entry-empty v)
key_of-entry (Text.◌∷◌ c s) v h =
    ap key_of (entry-letter c s v) ∙ elim (Bool-cases (code c == 61)) [
      | inl e ↦ absurd (ground (arith, e, h))
      | inr e ↦ elim (Option-cases (key_of s)) [
        | inl q ↦ ground (arith, e, key_of-entry s v q)
        | inr (k, q) ↦ absurd (ground (arith, e, q, h))
      ]
    ]

-- No character of a key is `=`.
abbrev pub NoEquals : String → Type 0
NoEquals Text.[] = Unit
NoEquals (Text.◌∷◌ c s) = (code c ≢ 61) × NoEquals s

key_of-NoEquals : (k : String) → NoEquals k → key_of k ≡ none
unfolding key_of
key_of-NoEquals Text.[] h = refl
key_of-NoEquals (Text.◌∷◌ c s) (a, h) = ground (arith, a, key_of-NoEquals s h)

abbrev pub at : ℕ → List String → Option String
at i [] = none
at zero (x ∷ xs) = some x
at (suc i) (x ∷ xs) = at i xs

at-set_at :
    (i : ℕ) (x y : String) (xs : List String) → at i xs ≡ some y → at i (set_at i x xs) ≡ some x
unfolding set_at
at-set_at i x y [] h = absurd (ground (arith, h))
at-set_at zero x y (z ∷ xs) h = refl
at-set_at (suc i) x y (z ∷ xs) h = at-set_at i x y xs h

at-set_at_ne : (i j : ℕ) (x : String) (xs : List String) → i ≢ j → at j (set_at i x xs) ≡ at j xs
unfolding set_at
at-set_at_ne i j x [] n = refl
at-set_at_ne zero zero x (z ∷ xs) n = absurd (n refl)
at-set_at_ne zero (suc j) x (z ∷ xs) n = refl
at-set_at_ne (suc i) zero x (z ∷ xs) n = refl
at-set_at_ne (suc i) (suc j) x (z ∷ xs) n = at-set_at_ne i j x xs (λ e. n (ap suc e))

at-append : (i : ℕ) (x : String) (xs ys : List String) → at i xs ≡ some x → at i (xs ++ ys) ≡ some x
at-append i x [] ys h = absurd (ground (arith, h))
at-append zero x (z ∷ xs) ys h = h
at-append (suc i) x (z ∷ xs) ys h = at-append i x xs ys h

at-length : (x : String) (xs : List String) → at (length xs) (xs ++ x ∷ []) ≡ some x
at-length x [] = refl
at-length x (z ∷ xs) = at-length x xs

-- The index of a key is that of an entry with the key.
abbrev Reads : Map ℕ → List String → Type 0
Reads seen out =
    (k : String) (i : ℕ)
    → lookup k seen ≡ some i
    → (e : String) × (at i out ≡ some e) × (key_of e ≡ some k)

-- A variable that is set, at the index of its key.
abbrev Stands : Map ℕ → List String → String → String → Type 0
Stands seen out k v = (i : ℕ) × (lookup k seen ≡ some i) × (at i out ≡ some (entry k v))

replaced-Reads :
    (seen : Map ℕ) (out : List String) (k v : String) (i : ℕ)
    → Reads seen out
    → key_of k ≡ none
    → lookup k seen ≡ some i
    → Reads seen (set_at i (entry k v) out)
replaced-Reads seen out k v i u n e k' j f =
    let (x, a, b) = u k i e in
    let (y, c, d) = u k' j f in
    elim (dec_string k k') [
      | yes p ↦
          let same : i ≡ j = some_inj (sym e ∙ ap (λ z. lookup z seen) p ∙ f) in
          (
            entry k v,
            ap (λ z. at z (set_at i (entry k v) out)) (sym same) ∙ at-set_at i (entry k v) x out a,
            key_of-entry k v n ∙ ap some p,
          )
      | no p ↦ (
        y,
        at-set_at_ne i j (entry k v) out (λ q.
              p (some_inj (sym b ∙ ap key_of (some_inj (sym a ∙ ap (λ z. at z out) q ∙ c)) ∙ d)))
            ∙ c,
        d,
      )
    ]

appended-Reads :
    (seen : Map ℕ) (out : List String) (k x : String)
    → Reads seen out
    → key_of x ≡ some k
    → Reads (insert k (length out) seen) (out ++ x ∷ [])
appended-Reads seen out k x u n k' j f = elim (dec_string k k') [
  | yes p ↦
      let same : j ≡ length out = sym (lookup-insert_inv k k' (length out) seen p f) in
      (x, ap (λ z. at z (out ++ x ∷ [])) same ∙ at-length x out, n ∙ ap some p)
  | no p ↦
      let (y, c, d) = u k' j (sym (lookup-insert_ne k k' (length out) seen p) ∙ f) in
      (y, at-append j y out _ c, d)
]

replaced-Stands :
    (seen : Map ℕ) (out : List String) (k v k' v' : String) (i : ℕ)
    → Reads seen out
    → lookup k' seen ≡ some i
    → k' ≢ k
    → Stands seen out k v
    → Stands seen (set_at i (entry k' v') out) k v
replaced-Stands seen out k v k' v' i u e ne (j, f, g) =
    let (x, a, b) = u k' i e in
    let (y, c, d) = u k j f in
    (
      j,
      f,
      at-set_at_ne i j (entry k' v') out (λ q.
            ne (some_inj (sym b ∙ ap key_of (some_inj (sym a ∙ ap (λ z. at z out) q ∙ c)) ∙ d)))
          ∙ g,
    )

appended-Stands :
    (seen : Map ℕ) (out : List String) (k v k' v' : String)
    → k' ≢ k
    → Stands seen out k v
    → Stands (insert k' (length out) seen) (out ++ entry k' v' ∷ []) k v
appended-Stands seen out k v k' v' ne (j, f, g) =
    (j, lookup-insert_ne k' k (length out) seen ne ∙ f, at-append j (entry k v) out _ g)

-- The keys of the job's environment are different, and none of them holds a `=`.
abbrev pub AreKeys : Map String → Type 0
AreKeys [] = Unit
AreKeys ((k, v) ∷ extra) = (lookup k extra ≡ none) × NoEquals k × AreKeys extra

at_append_cases :
    (j : ℕ) (e x : String) (xs : List String)
    → at j (xs ++ x ∷ []) ≡ some e
    → ((at j xs ≡ some e) × (j ≤ length xs)) ⊎ ((j ≡ length xs) × (e ≡ x))
at_append_cases zero e x [] h = inr (refl, sym (some_inj h))
at_append_cases (suc j) e x [] h = absurd (ground (arith, h))
at_append_cases zero e x (z ∷ xs) h = inl (h, omega arith)
at_append_cases (suc j) e x (z ∷ xs) h = elim (at_append_cases j e x xs h) [
  | inl (a, b) ↦ inl (a, omega (arith, b))
  | inr (a, b) ↦ inr (omega (arith, a), b)
]

-- No entry of a key stands after the index of the key.
abbrev Last : Map ℕ → List String → Type 0
Last seen out =
    (k : String) (j : ℕ) (e : String)
    → at j out ≡ some e
    → key_of e ≡ some k
    → (i : ℕ) × (lookup k seen ≡ some i) × (j ≤ i)

abbrev Indexed : Map ℕ → List String → Type 0
Indexed seen out = Reads seen out × Last seen out

replaced-Last :
    (seen : Map ℕ) (out : List String) (k v : String) (i : ℕ)
    → Indexed seen out
    → key_of k ≡ none
    → lookup k seen ≡ some i
    → Last seen (set_at i (entry k v) out)
replaced-Last seen out k v i (u, l) n f k' j e a b = elim (Bool-cases (i == j)) [
  | inl t ↦
      let p : i ≡ j = ground (arith, t) in
      let (x, c, _) = u k i f in
      let here : e ≡ entry k v = some_inj (
        sym a
        ∙ ap (λ z. at z (set_at i (entry k v) out)) (sym p)
        ∙ at-set_at i (entry k v) x out c) in
      let same : k' ≡ k = some_inj (sym b ∙ ap key_of here ∙ key_of-entry k v n) in
      (i, ap (λ z. lookup z seen) same ∙ f, omega (arith, p))
  | inr t ↦ l k' j e (sym (at-set_at_ne i j (entry k v) out (λ q. ground (arith, t, q))) ∙ a) b
]

appended-Last :
    (seen : Map ℕ) (out : List String) (k x : String)
    → Last seen out
    → key_of x ≡ some k
    → Last (insert k (length out) seen) (out ++ x ∷ [])
appended-Last seen out k x l n k' j e a b = elim (at_append_cases j e x out a) [
  | inl (c, d) ↦ elim (dec_string k k') [
    | yes p ↦ (length out, ground (arith, p, lookup-insert k k' (length out) seen), d)
    | no p ↦ let (i, f, g) = l k' j e c b in (i, lookup-insert_ne k k' (length out) seen p ∙ f, g)
  ]
  | inr (c, d) ↦
      let p : k ≡ k' = some_inj (sym n ∙ ap key_of (sym d) ∙ b) in
      (length out, ground (arith, p, lookup-insert k k' (length out) seen), omega (arith, c))
]

kept-Last :
    (seen : Map ℕ) (out : List String) (x : String)
    → Last seen out
    → key_of x ≡ none
    → Last seen (out ++ x ∷ [])
kept-Last seen out x l n k j e a b = elim (at_append_cases j e x out a) [
  | inl (c, _) ↦ l k j e c b
  | inr (_, d) ↦ absurd (ground (arith, n, b, ap key_of d))
]

-- An entry of `k` stands in a list, with the value `v`, and no other one stands later.
abbrev pub Wins : String → String → List String → Type 0
Wins k v out =
    (i : ℕ) × (at i out ≡ some (entry k v))
    × ((j : ℕ) (x : String) → i < j → at j out ≢ some (entry k x))

merge_from-step :
    (seen : Map ℕ) (out : List String) (k v : String) (extra : Map String)
    → Indexed seen out
    → key_of k ≡ none
    → (seen' : Map ℕ) × (out' : List String) × (merge_from seen out ((k, v) ∷ extra)
        ≡ merge_from seen' out' extra)
      × Indexed seen' out'
      × Stands seen' out' k v
      × ((k' v' : String) → k ≢ k' → Stands seen out k' v' → Stands seen' out' k' v')
unfolding merge_from
merge_from-step seen out k v extra u n = elim (Option-cases (lookup k seen)) [
  | inr (i, e) ↦
      let (x, a, _) = u.0 k i e in
      (
        seen,
        set_at i (entry k v) out,
        rw (e, merge_from) refl,
        (replaced-Reads seen out k v i u.0 n e, replaced-Last seen out k v i u n e),
        (i, e, at-set_at i (entry k v) x out a),
        λ k' v' ne h. replaced-Stands seen out k' v' k v i u.0 e ne h,
      )
  | inl e ↦ (
    insert k (length out) seen,
    out ++ entry k v ∷ [],
    rw (e, merge_from) refl,
    (
      appended-Reads seen out k (entry k v) u.0 (key_of-entry k v n),
      appended-Last seen out k (entry k v) u.1 (key_of-entry k v n),
    ),
    (length out, lookup-insert_self k (length out) seen, at-length (entry k v) out),
    λ k' v' ne h. appended-Stands seen out k' v' k v ne h,
  )
]

other :
    (k k' v' : String) (extra : Map String)
    → lookup k ((k', v') ∷ extra) ≡ none
    → (k' ≢ k) × (lookup k extra ≡ none)
unfolding lookup
other k k' v' extra h = (ground (arith, h), ground (arith, h))

merge_from-keeps :
    (extra : Map String) (seen : Map ℕ) (out : List String) (k v : String)
    → Indexed seen out
    → AreKeys extra
    → lookup k extra ≡ none
    → key_of k ≡ none
    → Stands seen out k v
    → Wins k v (merge_from seen out extra)
unfolding merge_from
merge_from-keeps [] seen out k v u t a none_in (i, f, e) = (
  i,
  e,
  λ j x l q.
      let (i', f', l') = u.1 k j (entry k x) q (key_of-entry k x none_in) in
      absurd (omega (arith, l, l', some_inj (sym f ∙ f'))),
)
merge_from-keeps ((k', v') ∷ extra) seen out k v u (_, n, t) a none_in h =
    let (ne, rest) = other k k' v' extra a in
    let (seen', out', e, u', _, keeps) =
      merge_from-step seen out k' v' extra u (key_of-NoEquals k' n) in
    subst (λ xs. Wins k v xs) (sym e)
      (merge_from-keeps extra seen' out' k v u' t rest none_in (keeps k v ne h))

merge_from-sets :
    (extra : Map String) (seen : Map ℕ) (out : List String) (k v : String)
    → Indexed seen out
    → AreKeys extra
    → lookup k extra ≡ some v
    → Wins k v (merge_from seen out extra)
unfolding lookup
merge_from-sets [] seen out k v u t a = absurd (ground (arith, a))
merge_from-sets ((k', v') ∷ extra) seen out k v u (b, n, t) a =
    let (seen', out', e, u', new, _) =
      merge_from-step seen out k' v' extra u (key_of-NoEquals k' n) in
    subst (λ xs. Wins k v xs) (sym e)
      (elim (dec_string k' k) [
        | yes p ↦
            let same : v' ≡ v = ground (arith, p, a) in
            subst (λ z. Wins z v (merge_from seen' out' extra)) p
              (subst (λ z. Wins k' z (merge_from seen' out' extra)) same
                (merge_from-keeps extra seen' out' k' v' u' t b (key_of-NoEquals k' n) new))
        | no p ↦ merge_from-sets extra seen' out' k v u' t (ground (arith, p, a))
      ])

grown-Indexed :
    (seen : Map ℕ) (pre : List String) (kv : String)
    → Indexed seen pre
    → Indexed
        (elim (key_of kv) [ none ↦ seen | some k ↦ insert k (length pre) seen ])
        (pre ++ kv ∷ [])
grown-Indexed seen pre kv u = elim (Option-cases (key_of kv)) [
  | inl e ↦
      subst
        (λ z.
          Indexed (elim z [ none ↦ seen | some k ↦ insert k (length pre) seen ]) (pre ++ kv ∷ []))
        (sym e)
        (
          (λ k i f. let (x, c, d) = u.0 k i f in (x, at-append i x pre _ c, d)),
          kept-Last seen pre kv u.1 e,
        )
  | inr (k, e) ↦
      subst
        (λ z.
          Indexed (elim z [ none ↦ seen | some k ↦ insert k (length pre) seen ]) (pre ++ kv ∷ []))
        (sym e) (appended-Reads seen pre k kv u.0 e, appended-Last seen pre k kv u.1 e)
]

index_keys-Indexed :
    (kvs pre : List String) (seen : Map ℕ)
    → Indexed seen pre
    → Indexed (index_keys seen (length pre) kvs) (pre ++ kvs)
unfolding index_keys
index_keys-Indexed [] pre seen u = subst (λ xs. Indexed seen xs) (sym (append_empty pre)) u
index_keys-Indexed (kv ∷ kvs) pre seen u =
    let grown : Map ℕ = elim (key_of kv) [ none ↦ seen | some k ↦ insert k (length pre) seen ] in
    let end : length (pre ++ kv ∷ []) ≡ length pre + 1 = length-append pre (kv ∷ []) in
    subst (λ xs. Indexed (index_keys grown (length pre + 1) kvs) xs)
      (append_assoc pre (kv ∷ []) kvs)
      (subst (λ n. Indexed (index_keys grown n kvs) ((pre ++ kv ∷ []) ++ kvs)) end
        (index_keys-Indexed kvs (pre ++ kv ∷ []) grown (grown-Indexed seen pre kv u)))

-- Each variable of a job's environment stands in the environment of its process with the job's value,
-- and no later entry gives it another one, whatever the node's own environment holds, and how often,
-- provided the job's keys are different and hold no `=`.
pub merge_env-sets :
    (base : List String) (extra : Map String) (k v : String)
    → AreKeys extra
    → lookup k extra ≡ some v
    → Wins k v (merge_env base extra)
unfolding merge_env lookup
merge_env-sets base [] k v t a = absurd (ground (arith, a))
merge_env-sets base (e ∷ extra) k v t a =
    merge_from-sets (e ∷ extra) (index_keys [] 0 base) base k v
      (index_keys-Indexed base [] []
        ((λ k i h. absurd (ground (arith, h)), λ k j e h. absurd (ground (arith, h)))))
      t a
