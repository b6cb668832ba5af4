-- ===== src/System/Accounts/Blocking.antt =====
-- On `update` of src/admin/admin.service.ts, which blocks and restores the user of an entry.
use intaektok_be.Prelude.{
  ◌≡◌, ◌⊎◌, inl, inr, refl, sym, ap, ◌∙◌, subst, true, false, Option, none, some, Ident, Text, ◌==◌,
  find, update_where, In, find-In, find-holds, arith, Bool-cases, Option-cases, ==_refl,
}
use intaektok_be.Prisma.{
  User, UserStatus, Whitelist, WhitelistStatus, is_blocked, is_suspended, invited, active, blocked,
}
use intaektok_be.World.{World, when}
use intaektok_be.World.Keeps.{map_world}
use intaektok_be.Env.{Env}
use intaektok_be.Admin.{
  UpdateWhitelistDto, update, is_entry, patched, with_status, linked_user, block_user, restore_user,
  follow_up, enforce_block, reactivate,
}
use intaektok_be.System.Accounts.{touched, In-updated, In-touched, Keyed, update-Keyed}
use intaektok_be.System.Accounts.Sound.{
  Sound, Agree, entry_id, user_id, entry_kakao, user_kakao, users-Sound, milder-Sound,
}
use intaektok_be.System.Accounts.Linked.{
  has_id, linked_is_of, linked_none, still_suspended, touched_kakao,
}

-- The field that has a status, or is absent.
abbrev said : Option WhitelistStatus → Option (Option WhitelistStatus)
said none = none
said (some s) = some (some s)

module _ (env : Env) (id : Ident) (note : Option (Option Text)) (x : Whitelist) (w : World)
    (s : Sound env w) (here : In x w.whitelist) (this : x.id ≡ id) where
  abbrev dto : Option WhitelistStatus → UpdateWhitelistDto
  dto st = record { status = said st; note = note }

  abbrev noted_down : Option WhitelistStatus → World
  noted_down st = record w { whitelist = update_where (is_entry id) (patched (dto st)) w.whitelist }

  noted-milder :
      (st : Option WhitelistStatus)
      → ((y : Whitelist)
          → is_blocked (patched (dto st) y).status ≡ true
          → is_blocked y.status ≡ true)
      → Sound env (noted_down st)
  noted-milder st milder =
      milder-Sound env (is_entry id) (patched (dto st)) w (λ y. (refl, refl)) milder s

  noted-Keyed :
      (st : Option WhitelistStatus)
      → Keyed env.cuid entry_id entry_kakao w.issued (noted_down st).whitelist
  noted-Keyed st =
      update-Keyed env.cuid entry_id entry_kakao (is_entry id) (patched (dto st)) w.issued
        w.whitelist (λ y. (refl, refl)) s.entries

  -- The row that is noted down.
  noted_here : (st : Option WhitelistStatus) → In (patched (dto st) x) (noted_down st).whitelist
  noted_here st =
      subst (λ (a : Whitelist). In a (noted_down st).whitelist) (rw (this, ==_refl id) refl)
        (In-touched (is_entry id) (patched (dto st)) x w.whitelist here)

  -- The row that is blocked, and the others.
  noted_rows :
      (y : Whitelist)
      → In y (noted_down (some blocked)).whitelist
      → ((y ≡ patched (dto (some blocked)) x) ⊎ In y w.whitelist)
  noted_rows y i =
      let (z, j, e) = In-updated (is_entry id) (patched (dto (some blocked))) y w.whitelist i in
      elim (Bool-cases (z.id == id)) [
        | inl b ↦ inl (
            e
            ∙ rw b (
                ap (patched (dto (some blocked))) (
                  s.entries.by_id z x id j here (ground (arith, b))
                    (ap (λ (a : Ident). some a) this))))
        | inr b ↦ inr (subst (λ (a : Whitelist). In a w.whitelist) (sym (e ∙ rw b refl)) j)
      ]

  blocked-Agree :
      (o : Option User)
      → linked_user (patched (dto (some blocked)) x) (noted_down (some blocked)) ≡ o
      → Agree
          (noted_down (some blocked)).whitelist
          ((block_user o (noted_down (some blocked))).1).users
  blocked-Agree none h y u i j o b = elim (noted_rows y i) [
    | inl e ↦ absurd (
        linked_none (patched (dto (some blocked)) x) (noted_down (some blocked)) u h j
          (sym (ap entry_kakao e) ∙ o.0, o.1))
    | inr i' ↦ s.agree y u i' j o b
  ]
  blocked-Agree (some t) h y u i j o b =
      let (v, j', e) = In-updated (has_id t.id) (with_status UserStatus.suspended) u w.users j in
      let (t_in, t_of) =
        linked_is_of (patched (dto (some blocked)) x) (noted_down (some blocked)) t h in
      let same_kakao : u.kakao_id ≡ v.kakao_id =
        ap (λ (a : User). a.kakao_id) e ∙ touched_kakao (has_id t.id) UserStatus.suspended v in
      let kakao = ap (λ (a : Ident). some a) same_kakao in
      ap (λ (a : User). a.status) e ∙ elim (noted_rows y i) [
        | inl d ↦
            let same =
              s.users.by_kakao v t t.kakao_id j' t_in
                (sym kakao ∙ sym o.0 ∙ ap entry_kakao d ∙ t_of) refl in
            subst
              (λ (a : User).
                (touched (has_id t.id) (with_status UserStatus.suspended) a).status
                ≡ UserStatus.suspended)
              (sym same) (rw (==_refl t.id) refl)
        | inr i' ↦ still_suspended (has_id t.id) v (
            s.agree y v i' j' (o.0 ∙ kakao, subst (λ (a : Ident). (a == 0) ≡ false) same_kakao o.1)
              b)
      ]

  blocked-Sound :
      (o : Option User)
      → linked_user (patched (dto (some blocked)) x) (noted_down (some blocked)) ≡ o
      → Sound env (block_user o (noted_down (some blocked))).1
  blocked-Sound none h = record {
    entries = noted-Keyed (some blocked);
    users = s.users;
    agree = blocked-Agree none h;
  }
  blocked-Sound (some t) h = record {
    entries = noted-Keyed (some blocked);
    users =
        update-Keyed env.cuid user_id user_kakao (has_id t.id) (with_status UserStatus.suspended)
          w.issued w.users (λ u. (refl, refl)) s.users;
    agree = blocked-Agree (some t) h;
  }

  -- An entry that is set to another status has its user back, whom no blocked entry is of.
  restored-Sound :
      (st : WhitelistStatus)
      → is_blocked st ≡ false
      → (o : Option User) → linked_user (patched (dto (some st)) x) (noted_down (some st)) ≡ o
      → Sound env (restore_user o (noted_down (some st))).1
  restored-Sound st b none h = noted-milder (some st) (λ y a. absurd (ground (arith, a, b)))
  restored-Sound st b (some t) h = elim (Bool-cases (is_suspended t.status)) [
    | inl e ↦ rw e (
        users-Sound env (has_id t.id) (with_status UserStatus.active) (noted_down (some st))
          (λ u. (refl, refl)) noted agreed)
    | inr e ↦ rw e noted
  ]
    where
      noted : Sound env (noted_down (some st))
      noted = noted-milder (some st) (λ y a. absurd (ground (arith, a, b)))

      agreed :
          Agree
            (noted_down (some st)).whitelist
            (update_where (has_id t.id) (with_status UserStatus.active) w.users)
      agreed y u i j o a =
          let (v, j', e) = In-updated (has_id t.id) (with_status UserStatus.active) u w.users j in
          let (t_in, t_of) = linked_is_of (patched (dto (some st)) x) (noted_down (some st)) t h in
          let same_kakao : u.kakao_id ≡ v.kakao_id =
            ap (λ (z : User). z.kakao_id) e ∙ touched_kakao (has_id t.id) UserStatus.active v in
          let kakao = ap (λ (z : Ident). some z) same_kakao in
          elim (Bool-cases (v.id == t.id)) [
            | inl d ↦
                let same = s.users.by_id v t t.id j' t_in (ground (arith, d)) refl in
                let row =
                  noted.entries.by_kakao y (patched (dto (some st)) x) t.kakao_id i
                    (noted_here (some st)) (o.0 ∙ kakao ∙ ap user_kakao same) t_of in
                absurd (cc (a, b, ap (λ (z : Whitelist). is_blocked z.status) row))
            | inr d ↦
                let kept : u ≡ v = e ∙ rw d refl in
                ap (λ (z : User). z.status) kept
                ∙ noted.agree y v i j'
                    (o.0 ∙ kakao, subst (λ (z : Ident). (z == 0) ≡ false) same_kakao o.1) a
          ]

  restored :
      (st : WhitelistStatus)
      → is_blocked st ≡ false
      → Sound env
          (when
            (is_blocked x.status)
            (reactivate (patched (dto (some st)) x))
            (noted_down (some st))).1
  unfolding reactivate
  restored st b = elim (Bool-cases (is_blocked x.status)) [
    | inl e ↦
        rw e (
          restored-Sound st b (linked_user (patched (dto (some st)) x) (noted_down (some st))) refl)
    | inr e ↦ rw e (noted-milder (some st) (λ y a. absurd (ground (arith, a, b))))
  ]

  followed-Sound :
      (st : Option WhitelistStatus)
      → Sound env (follow_up st x (patched (dto st) x) (noted_down st)).1
  unfolding enforce_block reactivate
  followed-Sound none = noted-milder none (λ y a. a)
  followed-Sound (some invited) = restored invited refl
  followed-Sound (some active) = restored active refl
  followed-Sound (some blocked) = blocked-Sound _ refl

module _ (id : Ident) (note : Option (Option Text)) (w : World) where
  abbrev asked : Option (Option WhitelistStatus) → UpdateWhitelistDto
  asked f = record { status = f; note = note }

  update_missing :
      (f : Option (Option WhitelistStatus))
      → find (is_entry id) w.whitelist ≡ none
      → (update id (asked f) w).1 ≡ w
  unfolding update
  update_missing f e = ground (arith, e)

  update_null : (update id (asked (some none)) w).1 ≡ w
  unfolding update
  update_null = elim (Option-cases (find (is_entry id) w.whitelist)) [
    | inl e ↦ rw e refl
    | inr (x, e) ↦ rw e refl
  ]

  update-said :
      (st : Option WhitelistStatus) (x : Whitelist)
      → find (is_entry id) w.whitelist ≡ some x
      → (update id (asked (said st)) w).1
        ≡ (follow_up st x (patched (asked (said st)) x) (record w {
          whitelist = update_where (is_entry id) (patched (asked (said st))) w.whitelist;
        })).1
  unfolding update
  update-said none x e = rw e refl
  update-said (some s) x e =
      let updated = patched (asked (some (some s))) x in
      rw e (map_world (λ _. updated) (follow_up (some s) x updated) _)

pub update_entry-Sound :
    (env : Env) (id : Ident) (change : UpdateWhitelistDto) (w : World)
    → Sound env w
    → Sound env (update id change w).1
update_entry-Sound env id change w s = by_field change.status
  where
    by_status :
        (st : Option WhitelistStatus) → Sound env (update id (asked id change.note w (said st)) w).1
    by_status st = elim (Option-cases (find (is_entry id) w.whitelist)) [
      | inl e ↦ subst (Sound env) (sym (update_missing id change.note w (said st) e)) s
      | inr (x, e) ↦ subst (Sound env) (sym (update-said id change.note w st x e)) (
          followed-Sound env id change.note x w s (find-In (is_entry id) w.whitelist x e)
            (ground (arith, find-holds (is_entry id) w.whitelist x e)) st)
    ]

    by_field :
        (f : Option (Option WhitelistStatus)) → Sound env (update id (asked id change.note w f) w).1
    by_field none = by_status none
    by_field (some none) = subst (Sound env) (sym (update_null id change.note w)) s
    by_field (some (some st)) = by_status (some st)
