-- ===== src/Tooling/Parse/Candidates.antt =====
-- The best candidate among names of the text, as the loop of `toolset_parse_call` in src/inference/tooling.cpp keeps it.
use astral_runtime.Base.{
  ℕ, ◌≤◌, ◌<◌, true, false, some, none, List, length, take, ltb, u32_mod, ◌≡◌, refl, ap, sym, subst,
  ◌∙◌, inl, inr, ◌⊎◌, arith, Bool-cases, Option-cases,
}
use mathlib.Core.Option.{some-injective}
use astral_runtime.Tooling.Json.{Name}
use astral_runtime.Tooling.Json.Names.{IsName}
use astral_runtime.Tooling.Toolset.{ToolRecord, Toolset, find_tool_by_name}
use astral_runtime.Tooling.Parse.{Best, slice, arguments_of, consider}
use astral_runtime.Tooling.Parse.Named.{
  IsTagged, IsNamed, IsArguments, find_tool_by_name-IsNamed, arguments_of-IsArguments,
}

-- The names of the text, read from a position on: each is looked for behind the one before it.
pub data IsNext (text : List ℕ) (n : Name) : ℕ → Type 0 where
  now : {p : ℕ} → IsName text n 0 p → IsNext text n p
  behind : {p : ℕ} {m : Name} → IsName text m 0 p → IsNext text n m.next → IsNext text n p

-- A name of a tool, with arguments.
unfoldable pub IsCandidate : Toolset → List ℕ → Name → ToolRecord → List ℕ → Type 0
IsCandidate t text n tool arguments = IsNamed t text n tool × IsArguments text n arguments

-- What holds behind some of the names: the best candidate among them is open no more than any other, or once at most.
pub record IsBest (t : Toolset) (text : List ℕ) (Seen : Name → Type 0) (b : Best) : Type 0 where
  pub best :
      (tool : ToolRecord) (arguments : List ℕ)
      → b.best ≡ some (tool, arguments)
      → (n : Name) × Seen n
        × IsCandidate t text n tool arguments
        × (b.best_depth ≡ n.depth)
        × ((m : Name) (other : ToolRecord) (others : List ℕ)
            → Seen m
            → IsCandidate t text m other others
            → (n.depth ≤ m.depth) ⊎ (n.depth ≤ 1))
  pub no_best :
      b.best ≡ none
      → (m : Name) (other : ToolRecord) (others : List ℕ) → Seen m
      → IsCandidate t text m other others
      → ⊥
  pub known :
      (tool : ToolRecord) → b.first_known ≡ some tool → (n : Name) × Seen n × IsNamed t text n tool
  pub no_known :
      b.best ≡ none
      → b.first_known ≡ none
      → (m : Name) (other : ToolRecord) → Seen m
      → IsNamed t text m other
      → ⊥

-- The same for names that are seen in another way.
pub IsBest-same :
    (t : Toolset) (text : List ℕ) (Seen Other : Name → Type 0) (b : Best)
    → ((m : Name) → Seen m → Other m)
    → ((m : Name) → Other m → Seen m)
    → IsBest t text Seen b
    → IsBest t text Other b
IsBest-same t text Seen Other b to from v = record {
  best = λ tool arguments e.
      let (n, seen, is, level, least) = v.best tool arguments e in
      (n, to n seen, is, level, λ m other others o c. least m other others (from m o) c);
  no_best = λ e m other others o c. v.no_best e m other others (from m o) c;
  known = λ tool e. let (n, seen, is) = v.known tool e in (n, to n seen, is);
  no_known = λ e e' m other o c. v.no_known e e' m other (from m o) c;
}

-- A candidate that is open once at most stays the best among all names.
pub IsBest-more :
    (t : Toolset) (text : List ℕ) (Seen Other : Name → Type 0) (b : Best) (tool : ToolRecord)
    (arguments : List ℕ)
    → ((m : Name) → Seen m → Other m)
    → b.best ≡ some (tool, arguments)
    → b.best_depth ≤ 1
    → IsBest t text Seen b
    → IsBest t text Other b
IsBest-more t text Seen Other b tool arguments to there least v = record {
  best = λ u a e.
      let (n, seen, is, level, smaller) = v.best u a e in
      (n, to n seen, is, level, λ m other others o c. inr (omega (arith, level, least)));
  no_best = λ e. absurd (ground (arith, e, there));
  known = λ u e. let (n, seen, is) = v.known u e in (n, to n seen, is);
  no_known = λ e. absurd (ground (arith, e, there));
}

-- The names that were seen, and one more.
unfoldable pub Also : (Name → Type 0) → Name → Name → Type 0
Also Seen n m = Seen m ⊎ (m ≡ n)

module _ (t : Toolset) (text : List ℕ) (small : length text < u32_mod)
    (tagged : IsTagged t.bytes (take t.tool_count t.tools)) where
  -- A name that changes nothing, by what it fails to be.
  unknown-IsBest :
      (Seen : Name → Type 0) (n : Name) (b : Best)
      → find_tool_by_name t (slice text n.begin n.end) ≡ none
      → IsBest t text Seen b
      → IsBest t text (Also Seen n) b
  unfolding Also IsCandidate
  unknown-IsBest Seen n b unknown v =
      let nobody : (m : Name) (other : ToolRecord) → m ≡ n → IsNamed t text m other → ⊥ =
        λ m other same named. ground (
          arith,
          unknown,
          (find_tool_by_name-IsNamed t text n other tagged).1
              (subst (λ k. IsNamed t text k other) same named),
        ) in
      record {
        best = λ tool arguments e.
            let (n', seen, is, level, least) = v.best tool arguments e in
            (
              n',
              inl seen,
              is,
              level,
              λ m other others o c. elim o [
                | inl before ↦ least m other others before c
                | inr same ↦ absurd (nobody m other same c.0)
              ],
            );
        no_best = λ e m other others o c. elim o [
          | inl before ↦ v.no_best e m other others before c
          | inr same ↦ nobody m other same c.0
        ];
        known = λ tool e. let (n', seen, is) = v.known tool e in (n', inl seen, is);
        no_known = λ e e' m other o c. elim o [
          | inl before ↦ v.no_known e e' m other before c
          | inr same ↦ nobody m other same c
        ];
      }

  no_arguments :
      (n m : Name) (others : List ℕ)
      → arguments_of text n ≡ none
      → m ≡ n
      → IsArguments text m others
      → ⊥
  no_arguments n m others bare same is =
      (arguments_of-IsArguments text small n).1 bare others
        (subst (λ k. IsArguments text k others) same is)

  -- A tool without arguments, which may be the first that is known.
  bare-IsBest :
      (Seen : Name → Type 0) (n : Name) (b : Best) (tool : ToolRecord) (first_known : ToolRecord)
      → IsNamed t text n tool
      → arguments_of text n ≡ none
      → (b.first_known ≡ some first_known) ⊎ ((b.first_known ≡ none) × (first_known ≡ tool))
      → IsBest t text Seen b
      → IsBest t text (Also Seen n) (record b { first_known = some first_known })
  unfolding Also IsCandidate
  bare-IsBest Seen n b tool first_known named bare was v = record {
    best = λ u a e.
        let (n', seen, is, level, least) = v.best u a e in
        (
          n',
          inl seen,
          is,
          level,
          λ m other others o c. elim o [
            | inl before ↦ least m other others before c
            | inr same ↦ absurd (no_arguments n m others bare same c.1)
          ],
        );
    no_best = λ e m other others o c. elim o [
      | inl before ↦ v.no_best e m other others before c
      | inr same ↦ no_arguments n m others bare same c.1
    ];
    known = λ u e. elim was [
      | inl old ↦ let (n', seen, is) = v.known u (old ∙ e) in (n', inl seen, is)
      | inr (none_yet, new) ↦
          (n, inr refl, subst (IsNamed t text n) (sym new ∙ some-injective _ _ e) named)
    ];
    no_known = λ e e'. absurd (ground (arith, e'));
  }

  -- A candidate that is open no less than the best.
  worse-IsBest :
      (Seen : Name → Type 0) (n : Name) (b : Best) (q : ToolRecord × List ℕ)
      → b.best ≡ some q
      → b.best_depth ≤ n.depth
      → IsBest t text Seen b
      → IsBest t text (Also Seen n) b
  unfolding Also
  worse-IsBest Seen n b q there deep v = record {
    best = λ u a e.
        let (n', seen, is, level, least) = v.best u a e in
        (
          n',
          inl seen,
          is,
          level,
          λ m other others o c. elim o [
            | inl before ↦ least m other others before c
            | inr same ↦ inl (omega (arith, deep, level, ap (λ k. k.depth) same))
          ],
        );
    no_best = λ e. absurd (ground (arith, e, there));
    known = λ u e. let (n', seen, is) = v.known u e in (n', inl seen, is);
    no_known = λ e. absurd (ground (arith, e, there));
  }

  -- A candidate that is open less than the best, or the first one.
  better-IsBest :
      (Seen : Name → Type 0) (n : Name) (b : Best) (tool : ToolRecord) (arguments : List ℕ)
      → IsCandidate t text n tool arguments
      → (b.best ≡ none) ⊎ ((q : ToolRecord × List ℕ) × (b.best ≡ some q) × (n.depth < b.best_depth))
      → IsBest t text Seen b
      → IsBest t text
          (Also Seen n)
          (record b { best = some (tool, arguments); best_depth = n.depth })
  unfolding Also
  better-IsBest Seen n b tool arguments candidate was v = record {
    best = λ u a e.
        let same = some-injective _ _ e in
        (
          n,
          inr refl,
          subst (λ q. IsCandidate t text n q.0 q.1) same candidate,
          refl,
          λ m other others o c. elim o [
            | inr here ↦ inl (omega (arith, ap (λ k. k.depth) here))
            | inl before ↦ elim was [
              | inl no_best ↦ absurd (v.no_best no_best m other others before c)
              | inr (q, there, less) ↦
                  let (n', seen, is, level, least) = v.best q.0 q.1 there in
                  elim (least m other others before c) [
                    | inl le ↦ inl (omega (arith, le, less, level))
                    | inr once ↦ inr (omega (arith, once, less, level))
                  ]
            ]
          ],
        );
    no_best = λ e. absurd (ground (arith, e));
    known = λ u e. let (n', seen, is) = v.known u e in (n', inl seen, is);
    no_known = λ e. absurd (ground (arith, e));
  }

  -- One name: the best among one more, and where the scan stops, one that is open once at most.
  pub consider-IsBest :
      (Seen : Name → Type 0) (n : Name) (b : Best)
      → IsBest t text Seen b
      → IsBest t text (Also Seen n) (consider t text n b).0
        × ((consider t text n b).1 ≡ true
            → (q : ToolRecord × List ℕ) × ((consider t text n b).0.best ≡ some q)
              × ((consider t text n b).0.best_depth ≤ 1))
  unfolding consider IsCandidate
  consider-IsBest Seen n b v =
      elim (Option-cases (find_tool_by_name t (slice text n.begin n.end))) [
        | inl unknown ↦
            rw (consider, unknown)
              (unknown-IsBest Seen n b unknown v, λ e. absurd (ground (arith, e)))
        | inr (tool, found) ↦
            let named = (find_tool_by_name-IsNamed t text n tool tagged).0 found in
            elim (Option-cases (arguments_of text n)) [
              | inl bare ↦ elim (Option-cases b.first_known) [
                | inl first ↦
                    rw (consider, found, bare, first)
                      (
                        bare-IsBest Seen n b tool tool named bare (inr (first, refl)) v,
                        λ e. absurd (ground (arith, e)),
                      )
                | inr (old, first) ↦
                    rw (consider, found, bare, first)
                      (
                        bare-IsBest Seen n b tool old named bare (inl first) v,
                        λ e. absurd (ground (arith, e)),
                      )
              ]
              | inr (arguments, given) ↦
                  let candidate : IsCandidate t text n tool arguments =
                    (named, (arguments_of-IsArguments text small n).0 arguments given) in
                  elim (Option-cases b.best) [
                    | inl first ↦
                        rw (consider, found, given, first)
                          (
                            better-IsBest Seen n b tool arguments candidate (inl first) v,
                            λ e. ((tool, arguments), refl, ground (arith, e)),
                          )
                    | inr (q, old) ↦ elim (Bool-cases (ltb n.depth b.best_depth)) [
                      | inl less ↦
                          rw (consider, found, given, old, less)
                            (
                              better-IsBest Seen n b tool arguments candidate
                                  (inr (q, old, ground (arith, less))) v,
                              λ e. ((tool, arguments), refl, ground (arith, e)),
                            )
                      | inr more ↦
                          let test : (elim b.best [
                            | none ↦ true
                            | some _ ↦ ltb n.depth b.best_depth
                          ])
                              ≡ false =
                            rw old more in
                          rw (consider, found, given, test)
                            (
                              worse-IsBest Seen n b q old (ground (arith, more)) v,
                              λ e. absurd (ground (arith, e)),
                            )
                    ]
                  ]
            ]
      ]
