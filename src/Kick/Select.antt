-- ===== src/Kick/Select.antt =====
-- Only the lines of the configuration that is asked for take effect.
use bboot.Base.{
  ℕ, suc, ◌+◌, ◌<◌, Bool, true, false, ◌&&◌, List, [], ◌∷◌, ◌++◌, ◌≡◌, refl, ap, ◌∙◌, ◌==◌, not,
  add32, if◌then◌else◌, Bytes, codes, length, arith, Bool-cases, inl, inr,
}
use bboot.AosList.{alist_init}
use bboot.Zip.{Puff}
use bboot.Action.{
  bad_line, not_loaded, Machine, Result, ok, err, Action, ◌>>=◌, pure, raise, require, modify,
  bind_assoc, bind_ensures, bind_cong_where, after,
}
use bboot.Layout.{keyword, skip_lead, trim_line, no_command, argument}
use bboot.Kick.{
  Board, Cursor, Turn, next_line, stop, load_at, load_module_from_zip, exec_line, module_line,
  load_line, start_list, claim_or_fail, sizeof_list, start_cursor, command, visit, follow,
  is_empty_list,
}
use bboot.Kick.Rounds.{run_lines}

-- A line that is a command with the keyword LABEL, and how many of these there are.
unfoldable pub is_label : Bytes → Bool
is_label p = not (no_command (skip_lead p)) && keyword (trim_line (skip_lead p)) (codes "LABEL")

abbrev pub label_count : Bytes → ℕ
label_count p = if is_label p then 1 else 0

unfoldable pub labels_in : List Bytes → ℕ
labels_in [] = 0
labels_in (p ∷ ls) = label_count p + labels_in ls

abbrev pub AtLabel : List Bytes → Type 0
AtLabel [] = Unit {0}
AtLabel (p ∷ ls) = is_label p ≡ true

abbrev Keeps : ℕ → Result Turn → Type 0
Keeps n (ok (next_line k)) = k.labels ≡ n
Keeps n (ok (stop k)) = ⊥
Keeps n (err e) = Unit {0}

module _ {ℓ} {S : Type ℓ} (board : Board S) (puff : Puff) where
  abbrev pub places : Cursor → Action S (ℕ × ℕ)
  places k = pure (k.kicklist, k.avail)

  unfoldable pub finish : (Cursor → Action S (ℕ × ℕ)) → Turn → Action S (ℕ × ℕ)
  finish next (next_line k) = next k
  finish next (stop k) = places k

  -- The lines of a section, one after the other: comments and empty lines are nothing.
  unfoldable pub load_section : ℕ → List Bytes → Cursor → Action S (ℕ × ℕ)
  load_section l [] k = places k
  load_section l (p ∷ ls) k = if no_command (skip_lead p) then load_section (l + 1) ls k else (do
    turn ← load_line board puff l (trim_line (skip_lead p)) k
    finish (load_section (l + 1) ls) turn)

  load_at-Keeps :
      (path : Bytes) (a : ℕ) (k : Cursor) (m : Machine S)
      → Keeps k.labels (load_at board puff path a k m).0
  unfolding load_at
  load_at-Keeps path a k m =
      bind_ensures (Keeps k.labels) (load_module_from_zip board puff path a k.avail k.kicklist)
        (λ inc. require (not (inc == 0)) not_loaded >>= λ _.
          pure (next_line (record k { avail = add32 k.avail inc })))
        m (λ e. tt) (λ inc m'. go inc m' (not (inc == 0)))
    where
      go :
          (inc : ℕ) (m' : Machine S) (b : Bool)
          → Keeps k.labels
              ((require b not_loaded >>= λ _.
                  pure (next_line (record k { avail = add32 k.avail inc })))
                m').0
      go inc m' true = refl
      go inc m' false = tt

  start_list-Keeps : (k : Cursor) (m : Machine S) → Keeps k.labels (start_list board puff k m).0
  unfolding start_list
  start_list-Keeps k m =
      bind_ensures (Keeps k.labels) (claim_or_fail board puff k.avail sizeof_list)
        (λ list. modify (λ mem. alist_init mem list) >>= λ _.
          pure (next_line (record k { kicklist = list; avail = add32 k.avail sizeof_list })))
        m (λ e. tt) (λ list m'. refl)

  load_line-Keeps :
      (l : ℕ) (p : Bytes) (k : Cursor) (m : Machine S)
      → Keeps k.labels (load_line board puff l p k m).0
  unfolding load_line exec_line module_line
  load_line-Keeps l p k m =
      either (is_empty_list k.kicklist m.mem) (exec_line board puff l p k)
        (module_line board puff l p k)
        (either (keyword p (codes "EXEC")) (load_at board puff (argument 4 p) board.exec_addr k)
          (raise (bad_line l)) (load_at-Keeps (argument 4 p) board.exec_addr k m) tt)
        (either (keyword p (codes "MODULE")) (load_at board puff (argument 6 p) 0 k)
          (raise (bad_line l)) (load_at-Keeps (argument 6 p) 0 k m) tt)
    where
      either :
          (b : Bool) (x y : Action S Turn)
          → Keeps k.labels (x m).0
          → Keeps k.labels (y m).0
          → Keeps k.labels ((if b then x else y) m).0
      either true x y h h' = h
      either false x y h h' = h'

  -- What a line does before the section, at its label, and in it.
  visit-before :
      (config l : ℕ) (p : Bytes) (k : Cursor) (m : Machine S)
      → k.labels + label_count p < config
      → visit board puff config l (skip_lead p) k m
        ≡ (ok (next_line (record k { labels = k.labels + label_count p })), m)
  unfolding visit command is_label
  visit-before config l p k m h = ground arith

  visit-label :
      (config l : ℕ) (p : Bytes) (k : Cursor) (m : Machine S)
      → is_label p ≡ true
      → k.labels + 1 ≡ config
      → visit board puff config l (skip_lead p) k m
        ≡ start_list board puff (record k { labels = config }) m
  unfolding visit command is_label
  visit-label config l p k m h e = ground arith

  visit-stop :
      (config l : ℕ) (p : Bytes) (k : Cursor) (m : Machine S)
      → is_label p ≡ true
      → k.labels ≡ config
      → visit board puff config l (skip_lead p) k m
        ≡ (ok (stop (record k { labels = config + 1 })), m)
  unfolding visit command is_label
  visit-stop config l p k m h e = ground arith

  visit-inside :
      (config l : ℕ) (p : Bytes) (k : Cursor) (m : Machine S)
      → is_label p ≡ false
      → k.labels ≡ config
      → visit board puff config l (skip_lead p) k m
        ≡ (if no_command (skip_lead p)
              then pure (next_line k)
              else load_line board puff l (trim_line (skip_lead p)) k)
            m
  unfolding visit command is_label
  visit-inside config l p k m h e = ground arith

  run_lines-before :
      (config l : ℕ) (ls rest : List Bytes) (k : Cursor) (m : Machine S)
      → k.labels + labels_in ls < config
      → run_lines board puff config l (ls ++ rest) k m
        ≡ run_lines board puff config
            (l + length ls)
            rest
            (record k { labels = k.labels + labels_in ls })
            m
  unfolding run_lines labels_in follow
  run_lines-before config l [] rest k m h =
      ap (λ (n : ℕ). run_lines board puff config n rest k m) (omega arith)
      ∙ ap (λ (n : ℕ). run_lines board puff config (l + 0) rest (record k { labels = n }) m)
          (omega arith)
  run_lines-before config l (p ∷ ls) rest k m h =
      ap (after (follow board puff (run_lines board puff config (l + 1) (ls ++ rest))))
        (visit-before config l p k m (omega (arith, h)))
      ∙ run_lines-before config (l + 1) ls rest (record k { labels = k.labels + label_count p }) m
          (omega (arith, h))
      ∙ ap
          (λ (n : ℕ).
            run_lines board puff config n rest
              (record k { labels = k.labels + label_count p + labels_in ls }) m)
          (omega arith)
      ∙ ap
          (λ (n : ℕ).
            run_lines board puff config (l + suc (length ls)) rest (record k { labels = n }) m)
          (omega arith)

  run_lines-rest :
      (config l : ℕ) (rest : List Bytes) (k : Cursor) (m : Machine S)
      → AtLabel rest
      → k.labels ≡ config
      → (run_lines board puff config l rest k >>= places) m ≡ places k m
  unfolding run_lines follow
  run_lines-rest config l [] k m h e = refl
  run_lines-rest config l (p ∷ rest) k m h e =
      ap
        (λ r. after places (after (follow board puff (run_lines board puff config (l + 1) rest)) r))
        (visit-stop config l p k m h e)

  run_lines-section :
      (config l : ℕ) (ls rest : List Bytes) (k : Cursor) (m : Machine S)
      → labels_in ls ≡ 0
      → AtLabel rest
      → k.labels ≡ config
      → (run_lines board puff config l (ls ++ rest) k >>= places) m ≡ load_section l ls k m
  unfolding run_lines labels_in load_section follow finish
  run_lines-section config l [] rest k m z h e = run_lines-rest config l rest k m h e
  run_lines-section config l (p ∷ ls) rest k m z h e =
      let plain : is_label p ≡ false = ground (arith, z) in
      let later : labels_in ls ≡ 0 = omega (arith, z) in
      let next = run_lines board puff config (l + 1) (ls ++ rest) in
      let whole = λ (turn : Turn). follow board puff next turn >>= places in
      let load = load_line board puff l (trim_line (skip_lead p)) k in
      bind_assoc (visit board puff config l (skip_lead p) k) (follow board puff next) places m
      ∙ ap (after whole) (visit-inside config l p k m plain e)
      ∙ elim (Bool-cases (no_command (skip_lead p))) [
        | inl c ↦ rw c (run_lines-section config (l + 1) ls rest k m later h e)
        | inr c ↦ rw c (
            bind_cong_where (Keeps k.labels) load whole (finish (load_section (l + 1) ls)) m
              (load_line-Keeps l (trim_line (skip_lead p)) k m)
              (λ turn m' kept.
                same turn m' kept
                  (λ k' e'. run_lines-section config (l + 1) ls rest k' m' later h (e' ∙ e))))
      ]
    where
      same :
          (turn : Turn) (m' : Machine S)
          → Keeps k.labels (ok turn)
          → ((k' : Cursor)
              → k'.labels ≡ k.labels
              → (run_lines board puff config (l + 1) (ls ++ rest) k' >>= places) m'
                ≡ load_section (l + 1) ls k' m')
          → (follow board puff (run_lines board puff config (l + 1) (ls ++ rest)) turn >>= places)
              m'
            ≡ finish (load_section (l + 1) ls) turn m'
      same (next_line k') m' kept ih = ih k' kept
      same (stop k') m' kept ih = absurd kept

  -- The lines before the label of the configuration, whatever they are, and those from the next label on
  -- have no effect: the loop makes the list at the label and then loads the lines of the section, one by
  -- one. The configurations count from 1, in the order of their labels.
  pub run_lines-load_section :
      (config : ℕ) (before section rest : List Bytes) (label : Bytes) (m : Machine S)
      → labels_in before + 1 ≡ config
      → is_label label ≡ true
      → labels_in section ≡ 0
      → AtLabel rest
      → (run_lines board puff config 1 (before ++ (label ∷ (section ++ rest))) start_cursor
            >>= places)
          m
        ≡ (start_list board puff (record start_cursor { labels = config })
              >>= finish (load_section (length before + 2) section))
            m
  unfolding run_lines follow finish
  run_lines-load_section config before section rest label m b t z h =
      let l = length before in
      let tail = section ++ rest in
      let counted : Cursor = record start_cursor { labels = 0 + labels_in before } in
      let next = run_lines board puff config (1 + l + 1) tail in
      ap (after places)
        (run_lines-before config 1 before (label ∷ tail) start_cursor m (omega (arith, b)))
      ∙ bind_assoc (visit board puff config (1 + l) (skip_lead label) counted)
          (follow board puff next) places m
      ∙ ap (after (λ turn. follow board puff next turn >>= places))
          (visit-label config (1 + l) label counted m t (omega (arith, b)))
      ∙ bind_cong_where (Keeps config)
          (start_list board puff (record start_cursor { labels = config }))
          (λ turn. follow board puff next turn >>= places) (finish (load_section (l + 2) section)) m
          (start_list-Keeps (record start_cursor { labels = config }) m)
          (same next (l + 2) (λ k' m' e.
            ap (λ (n : ℕ). (run_lines board puff config n tail k' >>= places) m') (omega arith)
            ∙ run_lines-section config (l + 2) section rest k' m' z h e))
    where
      same :
          (next : Cursor → Action S Cursor) (n : ℕ)
          → ((k' : Cursor) (m' : Machine S)
              → k'.labels ≡ config
              → (next k' >>= places) m' ≡ load_section n section k' m')
          → (turn : Turn) (m' : Machine S) → Keeps config (ok turn)
          → (follow board puff next turn >>= places) m' ≡ finish (load_section n section) turn m'
      same next n ih (next_line k') m' kept = ih k' m' kept
      same next n ih (stop k') m' kept = absurd kept
