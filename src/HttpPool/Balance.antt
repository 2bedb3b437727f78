-- ===== src/HttpPool/Balance.antt =====
-- m_total counts the connections of the pool and those that are given out.
use exhy.Common.{
  ◌∙◌, false, ◌&&◌, ◌++◌, All, ℕ, suc, ◌+◌, ◌-◌, ◌^◌, ◌≤◌, ◌<◌, Bool, true, not, ◌||◌, ◌≡◌, ◌⊎◌,
  refl, sym, ap, subst, inl, inr, List, [], ◌∷◌, Option, none, some, arith, ltb, leb, Bool-cases,
  Option-cases, length, length-append, add_size, up,
}
use exhy.HttpPool.{
  HttpConnection, HttpConnectionPool, Taken, less, more, take_conn, get_connection, release_ptr,
}

-- With `lent` connections given out, m_total is right.
abbrev pub Balanced : ℕ → HttpConnectionPool → Type 0
Balanced lent p = p.total ≡ length p.conns + lent

length-take_conn :
    (is_connected : ℕ → Bool) (now alive : ℕ) (cs : List HttpConnection)
    → (take_conn is_connected now alive cs).invalid
        + length (take_conn is_connected now alive cs).rest
        + (elim (take_conn is_connected now alive cs).ptr [ none ↦ 0 | some c ↦ 1 ])
      ≡ length cs
unfolding take_conn
length-take_conn is_connected now alive [] = refl
length-take_conn is_connected now alive (c ∷ cs) =
    let ih = length-take_conn is_connected now alive cs in
    elim (Bool-cases (is_connected c.number)) [
      | inr h ↦ rw h (omega (arith, ih))
      | inl h ↦ elim (Bool-cases (ltb now (add_size c.create_time alive))) [
        | inl k ↦ rw (h, k) (omega (arith, ih))
        | inr k ↦ rw (h, k) (omega arith)
      ]
    ]

-- The socket is connected and the age has reached the limit.
abbrev pub fits : (ℕ → Bool) → ℕ → ℕ → HttpConnection → Bool
fits is_connected now alive c =
    is_connected c.number && not (ltb now (add_size c.create_time alive))

abbrev pub NoneFits : (ℕ → Bool) → ℕ → ℕ → List HttpConnection → Type 0
NoneFits is_connected now alive cs = All (λ c. fits is_connected now alive c ≡ false) cs

-- `c` is the first connection of the pool that fits, and `rest` are those behind it.
abbrev pub FirstFit :
    (ℕ → Bool) → ℕ → ℕ → List HttpConnection → HttpConnection → List HttpConnection → Type 0
FirstFit is_connected now alive cs c rest =
    (dropped : List HttpConnection) × (cs ≡ dropped ++ c ∷ rest)
    × NoneFits is_connected now alive dropped
    × (fits is_connected now alive c ≡ true)

TakenOutcome : (ℕ → Bool) → ℕ → ℕ → List HttpConnection → Taken → Type 0
TakenOutcome is_connected now alive cs t =
    ((t.ptr ≡ none) × (t.rest ≡ []) × NoneFits is_connected now alive cs)
    ⊎ ((c : HttpConnection) × (t.ptr ≡ some c) × FirstFit is_connected now alive cs c t.rest)

-- The loop drops what does not fit and takes the first connection that does.
take_conn_lem :
    (is_connected : ℕ → Bool) (now alive : ℕ) (cs : List HttpConnection)
    → TakenOutcome is_connected now alive cs (take_conn is_connected now alive cs)
unfolding take_conn TakenOutcome
take_conn_lem is_connected now alive [] = inl (refl, refl, tt)
take_conn_lem is_connected now alive (c ∷ cs) =
    let next = take_conn is_connected now alive cs in
    let drop_first = record next { invalid = next.invalid + 1 } in
    let ih = take_conn_lem is_connected now alive cs in
    elim (Bool-cases (is_connected c.number)) [
      | inr h ↦
          let eq : take_conn is_connected now alive (c ∷ cs) ≡ drop_first =
            rw (take_conn, h) refl in
          subst (TakenOutcome is_connected now alive (c ∷ cs)) (sym eq) (dropping (rw h refl) ih)
      | inl h ↦ elim (Bool-cases (ltb now (add_size c.create_time alive))) [
        | inl k ↦
            let eq : take_conn is_connected now alive (c ∷ cs) ≡ drop_first =
              rw (take_conn, h, k) refl in
            subst (TakenOutcome is_connected now alive (c ∷ cs)) (sym eq)
              (dropping (rw (h, k) refl) ih)
        | inr k ↦
            let taken : Taken = record { invalid = 0; ptr = some c; rest = cs } in
            let eq : take_conn is_connected now alive (c ∷ cs) ≡ taken =
              rw (take_conn, h, k) refl in
            subst (TakenOutcome is_connected now alive (c ∷ cs)) (sym eq)
              (inr (c, refl, ([], refl, tt, rw (h, k) refl)))
      ]
    ]
  where
    dropping :
        fits is_connected now alive c ≡ false
        → TakenOutcome is_connected now alive cs (take_conn is_connected now alive cs)
        → TakenOutcome is_connected now alive
            (c ∷ cs)
            (record (take_conn is_connected now alive cs) {
              invalid = (take_conn is_connected now alive cs).invalid + 1;
            })
    dropping z (inl (e, r, f)) = inl (e, r, (z, f))
    dropping z (inr (d, e, (ds, q, f, g))) = inr (d, e, (c ∷ ds, ap (◌∷◌ c) q, (z, f), g))

less_lem : (n k : ℕ) → k ≤ n → n < 2 ^ 32 → less n k ≡ n - k
less_lem n k h l = omega arith

-- Where m_total is the number of connections in the pool and given out, and one more fits below 2 ^
-- 32, getConnection keeps it so. It returns the first connection of the pool that fits, that is, which is connected
-- and whose age has reached m_maxAliveTime, and those behind it stay in the pool; or none fits, the pool is emptied,
-- and it returns a new one, or none where no new one can be made.
pub get_connection_lem :
    (is_connected : ℕ → Bool) (now lent : ℕ) (made : Option HttpConnection) (p : HttpConnectionPool)
    → Balanced lent p
    → length p.conns + lent + 1 < 2 ^ 32
    → (((get_connection is_connected now made p).0 ≡ none)
        × (made ≡ none)
        × NoneFits is_connected now p.max_alive_time p.conns
        × ((get_connection is_connected now made p).1.conns ≡ [])
        × Balanced lent (get_connection is_connected now made p).1)
      ⊎ ((c : HttpConnection) × ((get_connection is_connected now made p).0 ≡ some c)
          × Balanced (suc lent) (get_connection is_connected now made p).1
          × (FirstFit is_connected now p.max_alive_time p.conns c
                (get_connection is_connected now made p).1.conns
              ⊎ ((made ≡ some c)
                  × NoneFits is_connected now p.max_alive_time p.conns
                  × ((get_connection is_connected now made p).1.conns ≡ []))))
unfolding get_connection TakenOutcome
get_connection_lem is_connected now lent made p h small =
    let t = take_conn is_connected now p.max_alive_time p.conns in
    let size = length-take_conn is_connected now p.max_alive_time p.conns in
    elim (take_conn_lem is_connected now p.max_alive_time p.conns) [
      | inr (c, e, first) ↦
          let sum : t.invalid + length t.rest + 1 ≡ length p.conns = rw e at size in
          let q = record p { conns = t.rest; total = less p.total t.invalid } in
          let eq : get_connection is_connected now made p ≡ (some c, q) =
            rw (get_connection, e) refl in
          let left = less_lem p.total t.invalid (omega arith) (omega arith) in
          let balance : less p.total t.invalid ≡ length t.rest + suc lent = omega (arith, left) in
          inr (
            c,
            ap (λ r. r.0) eq,
            subst (Balanced (suc lent)) (sym (ap (λ r. r.1) eq)) balance,
            inl (
                subst (FirstFit is_connected now p.max_alive_time p.conns c)
                  (sym (ap (λ r. r.1.conns) eq)) first),
          )
      | inl (e, rest, unfit) ↦
          let sum : t.invalid + length t.rest + 0 ≡ length p.conns = rw e at size in
          let left = less_lem p.total t.invalid (omega arith) (omega arith) in
          elim (Option-cases made) [
            | inl z ↦
                let q = record p { conns = t.rest; total = less p.total t.invalid } in
                let eq : get_connection is_connected now made p ≡ (none, q) =
                  rw (get_connection, e, z) refl in
                let balance : less p.total t.invalid ≡ length t.rest + lent = omega (arith, left) in
                inl (
                  ap (λ r. r.0) eq,
                  z,
                  unfit,
                  ap (λ r. r.1.conns) eq ∙ rest,
                  subst (Balanced lent) (sym (ap (λ r. r.1) eq)) balance,
                )
            | inr (c, z) ↦
                let q = record p { conns = t.rest; total = more (less p.total t.invalid) } in
                let eq : get_connection is_connected now made p ≡ (some c, q) =
                  rw (get_connection, e, z) refl in
                let balance : more (less p.total t.invalid) ≡ length t.rest + suc lent =
                  omega (arith, left) in
                inr (
                  c,
                  ap (λ r. r.0) eq,
                  subst (Balanced (suc lent)) (sym (ap (λ r. r.1) eq)) balance,
                  inr (z, unfit, ap (λ r. r.1.conns) eq ∙ rest),
                )
          ]
    ]

-- Where m_total is the number of connections in the pool and given out, ReleasePtr of one that is
-- given out keeps it so.
pub release_ptr_lem :
    (is_connected : ℕ → Bool) (now lent : ℕ) (c : HttpConnection) (p : HttpConnectionPool)
    → Balanced (suc lent) p
    → p.total < 2 ^ 32
    → Balanced lent (release_ptr is_connected now c p)
unfolding release_ptr
release_ptr_lem is_connected now lent c p h small =
    let one = less_lem p.total 1 (omega arith) small in
    elim (Bool-cases (
      not (is_connected c.number)
      || leb now (add_size c.create_time p.max_alive_time)
      || leb p.max_request (up c.request))) [
        | inl k ↦ rw k (omega (arith, one))
        | inr k ↦
            rw k
              (omega (arith, length-append p.conns (record c { request = up c.request } ∷ []), h))
      ]
