-- ===== src/System/Accounts/Laws.antt =====
-- That the users and the whitelist fit together, as what all calls of the server keep.
use intaektok_be.Prelude.{
  ℕ, ◌≡◌, inl, inr, refl, ap, ◌∙◌, subst, Bool, false, Option, none, some, ◌∷◌, Ident, ◌==◌,
  update_where, delete_where, arith, Bool-cases, Option-cases,
}
use intaektok_be.Prisma.{User, Room, Whitelist, AccessRequest, is_blocked}
use intaektok_be.Messages.Persist.{add_message}
use intaektok_be.World.{World, Result, Call, pure, gets, modify, ◌>>=◌, ◌>>◌}
use intaektok_be.World.Keeps.{Keeps, bind_rule}
use intaektok_be.Env.{Env}
use intaektok_be.Messages.Create.Frame.{Frame, create_message-Keeps}
use intaektok_be.Messages.Unsend.{unsend}
use intaektok_be.Auth.Login.{find_whitelist, bootstrap_one, bootstrap_entry}
use intaektok_be.Admin.{
  CreateWhitelistDto, add_entry, entry_of, is_taken, approve_new, approve_found,
  approve_access_request, is_entry, drop_request, approved,
}
use intaektok_be.Presence.{see_off, seen, expired, went_offline, remove_connection}
use intaektok_be.Realtime.Socket.{Client}
use intaektok_be.Realtime.Connection.{handle_disconnect, leave_of}
use intaektok_be.System.Preserves.{Law, Preserves, preserve_rules}
use intaektok_be.System.Accounts.{touched, In-updated}
use intaektok_be.System.Accounts.Sound.{
  Sound, Agree, same-Sound, add-Sound, delete-Sound, users-Sound,
}
use intaektok_be.System.Accounts.Blocking.{update_entry-Sound}
use intaektok_be.System.Accounts.Login.{Calm-Sound, kakao_login-Sound}

-- The ids that the database gives out are all different.
abbrev pub IsDistinct : Env → Type 0
IsDistinct env = (a b : ℕ) → env.cuid a ≡ env.cuid b → a ≡ b

-- Other requests keep that too.
abbrev pub OthersFit : Env → Type 0
OthersFit env = (left : ℕ) (w : World) → Sound env w → Sound env (env.others left w)

module _ (env : Env) (distinct : IsDistinct env) where
  add_entry-Sound :
      (x : Whitelist) (w : World)
      → x.id ≡ env.cuid w.issued
      → is_blocked x.status ≡ false
      → Sound env w
      → Sound env (add_entry x w).1
  add_entry-Sound x w i b s = elim (Bool-cases (is_taken x.kakao_id w)) [
    | inl e ↦ rw e s
    | inr e ↦ rw e (add-Sound env x w distinct i b (λ k h. ground (arith, e, h)) s)
  ]

  added-Sound :
      {A : Type 0} (x : Whitelist) (n : Call A) (w : World)
      → x.id ≡ env.cuid w.issued
      → is_blocked x.status ≡ false
      → Keeps (Sound env) n
      → Sound env w
      → Sound env ((add_entry x >> n) w).1
  added-Sound x n w i b k s =
      bind_rule After After (add_entry x) (λ _. n) w (add_entry-Sound x w i b s) (λ _ v h. k v h)
        (λ _ _ h. h)
    where
      After : {A : Type 0} → Result A × World → Type 0
      After (_, v) = Sound env v

  entry_added-Preserves :
      (dto : CreateWhitelistDto) (by : Ident)
      → Preserves (Sound env) (gets (entry_of env dto by) >>= λ x. add_entry x >> pure x)
  entry_added-Preserves dto by = record {
    at = λ w s.
        added-Sound (entry_of env dto by w) (pure (entry_of env dto by w)) w refl refl (λ _ i. i) s;
  }

  create_entry-Preserves :
      (dto : CreateWhitelistDto) (by : Ident)
      → Preserves (Sound env) (intaektok_be.Admin.create env dto by)
  unfolding intaektok_be.Admin.create
  create_entry-Preserves dto by = search (preserve_rules, entry_added-Preserves) depth 20

  approve_found-Preserves :
      (r : AccessRequest) (by : Ident) (o : Option Whitelist)
      → Preserves (Sound env) (approve_found env r by o)
  approve_found-Preserves r by none = record {
    at = λ w s.
        added-Sound (approved env r by w) (modify (drop_request r.id) >> pure (approved env r by w))
          w refl refl (λ v i. same-Sound env v (drop_request r.id v) refl refl (omega arith) i) s;
  }
  approve_found-Preserves r by (some x) = record {
    at = λ w s. elim (Bool-cases (is_blocked x.status)) [
      | inl e ↦ rw e s
      | inr e ↦ rw e (same-Sound env w (drop_request r.id w) refl refl (omega arith) s)
    ];
  }

  approve-Preserves : (id by : Ident) → Preserves (Sound env) (approve_access_request env id by)
  unfolding approve_access_request
  approve-Preserves id by = search (preserve_rules, approve_found-Preserves) depth 20

  delete-Preserves :
      (p : Whitelist → Bool)
      → Preserves (Sound env) (modify (λ w. record w { whitelist = delete_where p w.whitelist }))
  delete-Preserves p = record { at = λ w s. delete-Sound env p w s }

  remove-Preserves : (id : Ident) → Preserves (Sound env) (intaektok_be.Admin.remove id)
  unfolding intaektok_be.Admin.remove
  remove-Preserves id = search (preserve_rules, delete-Preserves) depth 20

  seen-Sound : (user : Ident) (w : World) → Sound env w → Sound env (see_off user w)
  seen-Sound user w s =
      users-Sound env (λ (u : User). u.id == user) (seen w.now) (expired user w) (λ u. (refl, refl))
        (same-Sound env w (expired user w) refl refl (omega arith) s) agreed
    where
      kept :
          (v : User)
          → ((touched (λ (u : User). u.id == user) (seen w.now) v).kakao_id ≡ v.kakao_id)
            × ((touched (λ (u : User). u.id == user) (seen w.now) v).status ≡ v.status)
      kept v = elim (Bool-cases (v.id == user)) [
        | inl e ↦ rw e (refl, refl)
        | inr e ↦ rw e (refl, refl)
      ]

      agreed : Agree w.whitelist (update_where (λ (u : User). u.id == user) (seen w.now) w.users)
      agreed y u i j o b =
          let (v, j', d) = In-updated (λ (u : User). u.id == user) (seen w.now) u w.users j in
          let (k, st) = kept v in
          ap (λ (z : User). z.status) d
          ∙ st
          ∙ s.agree y v i j'
              (subst (λ (z : Ident). (y.kakao_id ≡ some z) × ((z == 0) ≡ false))
                (ap (λ (z : User). z.kakao_id) d ∙ k) o)
              b

  boot-Sound : (id : Ident) (w : World) → Sound env w → Sound env (bootstrap_one env id w)
  boot-Sound id w s = elim (Option-cases (find_whitelist id w)) [
    | inl e ↦ rw e (
        add-Sound env (bootstrap_entry env id w) w distinct refl refl (λ k h. ground (arith, e, h))
          s)
    | inr (x, e) ↦ rw e s
  ]

  offline-Sound :
      (user : Ident) (n : ℕ) (w : World) → Sound env w → Sound env (went_offline user n w).1
  offline-Sound user n w s = elim (Bool-cases (n == 0)) [
    | inl e ↦ rw e (seen-Sound user w s)
    | inr e ↦ rw e s
  ]

  disconnect-Sound :
      (client : Client) (w : World) → Sound env w → Sound env (handle_disconnect client w).1
  unfolding handle_disconnect remove_connection
  disconnect-Sound client w s = left client.user_id
    where
      left : (o : Option Ident) → Sound env (leave_of client o w).1
      left none = s
      left (some user) = offline-Sound user _ _ (same-Sound env w _ refl refl (omega arith) s)

  abbrev touched_room : Ident → ℕ → World → World
  touched_room room at w = record w {
    rooms =
        update_where (λ (r : Room). r.id == room)
          (λ (r : Room). record r { last_message_at = some at }) w.rooms;
  }

  Sound-Frame : OthersFit env → Frame env (Sound env)
  Sound-Frame k = record {
    counter = λ w c h. same-Sound env w (record w { counter = c }) refl refl (omega arith) h;
    message = λ w m h. same-Sound env w (add_message m w) refl refl (omega arith) h;
    rooms = λ w r at h. same-Sound env w (touched_room r at w) refl refl (omega arith) h;
    event =
        λ w e h. same-Sound env w (record w { events = e ∷ w.events }) refl refl (omega arith) h;
    others = k;
  }

  pub Sound-Law : OthersFit env → Law env (Sound env)
  Sound-Law k = record {
    calm = Calm-Sound env distinct;
    create = λ p. record { at = create_message-Keeps env (Sound env) (Sound-Frame k) p };
    unsend = λ room id. record {
      at = λ w h. same-Sound env w (unsend room id w).1 refl refl (omega arith) h;
    };
    login = λ jwt api c r. record { at = kakao_login-Sound env distinct jwt api c r };
    create_entry = create_entry-Preserves;
    update_entry = λ id dto. record { at = update_entry-Sound env id dto };
    remove_entry = remove-Preserves;
    approve = approve-Preserves;
    boot = boot-Sound;
    disconnect = disconnect-Sound;
    others = k;
  }
