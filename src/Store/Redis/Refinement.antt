-- ===== src/Store/Redis/Refinement.antt =====
-- The store over a Redis server over whole histories of calls, some of which the server does not
-- answer. What a call did that was not answered is not known: the server may have carried it out.
use mathlib.Core.Path.{PathP}
use cloudinfo.Prelude.{
  String, ◌≡◌, refl, sym, ap, ◌∙◌, ◌≢◌, ◌⊎◌, inl, inr, Bool, true, false, List, [], ◌∷◌, Option,
  none, some, All, In, Bool-cases, str_eq, eq_iff, subst,
}
use cloudinfo.Json.{Json}
use cloudinfo.Json.Marshal.{
  marshal, unmarshal, unmarshal-encode_content, marshal-is_marshalable, marshal-not_marshalable,
}
use cloudinfo.Store.Key.{
  Key, vm_key, price_key, zone_key, image_key, version_key, region_key, status_key, services_key,
  key_text, IsClean, IsDeletable, Content,
}
use cloudinfo.Store.Key.RoundTrip.{key_text_injective}
use cloudinfo.Store.KeyValue.{KeyValue, Call, writes, deletes, target, outcome, is_sendable}
use cloudinfo.Store.Redis
use cloudinfo.Store.Redis.{cached}

-- A call of a method whose command the server answers, or does not: then it has carried it out or
-- not. A command stands where the server carries it out, which may be long after it was sent.
pub data Attempt : Type 0 where
  answered : Call → Attempt
  unanswered : Bool → Call → Attempt

module _ (r : KeyValue Json) where
  -- The getter, the method that stores and the one that deletes, for each kind of entry.
  unfoldable pub read_entry : Bool → r.State → (k : Key) → Option (Content k)
  read_entry up rps (vm_key p s g) = Redis.get_vm r up rps p s g
  read_entry up rps (price_key p g t) = Redis.get_price r up rps p g t
  read_entry up rps (zone_key p s g) = Redis.get_zones r up rps p s g
  read_entry up rps (image_key p s g) = Redis.get_image r up rps p s g
  read_entry up rps (version_key p s g) = Redis.get_version r up rps p s g
  read_entry up rps (region_key p s) = Redis.get_regions r up rps p s
  read_entry up rps (status_key p) = Redis.get_status r up rps p
  read_entry up rps (services_key p) = Redis.get_services r up rps p

  unfoldable pub write_entry : Bool → r.State → (k : Key) → Content k → r.State
  write_entry up rps (vm_key p s g) v = Redis.store_vm r up rps p s g v
  write_entry up rps (price_key p g t) v = Redis.store_price r up rps p g t v
  write_entry up rps (zone_key p s g) v = Redis.store_zones r up rps p s g v
  write_entry up rps (image_key p s g) v = Redis.store_image r up rps p s g v
  write_entry up rps (version_key p s g) v = Redis.store_version r up rps p s g v
  write_entry up rps (region_key p s) v = Redis.store_regions r up rps p s v
  write_entry up rps (status_key p) v = Redis.store_status r up rps p v
  write_entry up rps (services_key p) v = Redis.store_services r up rps p v

  unfoldable pub delete_entry : Bool → r.State → Key → r.State
  delete_entry up rps (vm_key p s g) = Redis.delete_vm r up rps p s g
  delete_entry up rps (zone_key p s g) = Redis.delete_zones r up rps p s g
  delete_entry up rps (image_key p s g) = Redis.delete_image r up rps p s g
  delete_entry up rps (version_key p s g) = Redis.delete_version r up rps p s g
  delete_entry up rps (region_key p s) = Redis.delete_regions r up rps p s
  delete_entry up rps _ = rps

  read_entry_lem :
      (rps : r.State) (k : Key)
      → read_entry true rps k ≡ cached (unmarshal k) (r.get rps (key_text k))
  unfolding read_entry Redis.getters key_text
  read_entry_lem rps (vm_key p s g) = refl
  read_entry_lem rps (price_key p g t) = refl
  read_entry_lem rps (zone_key p s g) = refl
  read_entry_lem rps (image_key p s g) = refl
  read_entry_lem rps (version_key p s g) = refl
  read_entry_lem rps (region_key p s) = refl
  read_entry_lem rps (status_key p) = refl
  read_entry_lem rps (services_key p) = refl

  write_entry_lem :
      (up : Bool) (rps : r.State) (k : Key) (v : Content k)
      → write_entry up rps k v ≡ Redis.set r up rps (key_text k) (marshal k v)
  unfolding write_entry Redis.setters key_text
  write_entry_lem up rps (vm_key p s g) v = refl
  write_entry_lem up rps (price_key p g t) v = refl
  write_entry_lem up rps (zone_key p s g) v = refl
  write_entry_lem up rps (image_key p s g) v = refl
  write_entry_lem up rps (version_key p s g) v = refl
  write_entry_lem up rps (region_key p s) v = refl
  write_entry_lem up rps (status_key p) v = refl
  write_entry_lem up rps (services_key p) v = refl

  delete_entry_lem :
      (up : Bool) (rps : r.State) (k : Key)
      → IsDeletable k
      → delete_entry up rps k ≡ Redis.delete r up rps (key_text k)
  unfolding delete_entry Redis.deleters key_text
  delete_entry_lem up rps (vm_key p s g) d = refl
  delete_entry_lem up rps (zone_key p s g) d = refl
  delete_entry_lem up rps (image_key p s g) d = refl
  delete_entry_lem up rps (version_key p s g) d = refl
  delete_entry_lem up rps (region_key p s) d = refl
  delete_entry_lem up rps (price_key _ _ _) d = elim d [ ]
  delete_entry_lem up rps (status_key _) d = elim d [ ]
  delete_entry_lem up rps (services_key _) d = elim d [ ]

  -- A call on an entry that the server carries out or not.
  unfoldable apply : Bool → r.State → Call → r.State
  unfolding write_entry delete_entry
  apply up rps (writes k v) = write_entry up rps k v
  apply up rps (deletes k d) = delete_entry up rps k

  pub step : r.State → Attempt → r.State
  unfolding apply
  step rps (answered call) = apply true rps call
  step rps (unanswered applied call) = apply applied rps call

  pub run : r.State → List Attempt → r.State
  unfolding step
  run rps [] = rps
  run rps (a ∷ attempts) = run (step rps a) attempts

  set-false : (rps : r.State) (key : String) (o : Option Json) → Redis.set r false rps key o ≡ rps
  unfolding Redis.set
  set-false rps key none = refl
  set-false rps key (some j) = refl

  get-set_other :
      (rps : r.State) (key k : String) (o : Option Json)
      → key ≢ k
      → r.get (Redis.set r true rps k o) key ≡ r.get rps key
  unfolding Redis.set
  get-set_other rps key k none n = refl
  get-set_other rps key k (some j) n = r.get-set_other rps key k j n

  apply-false : (rps : r.State) (call : Call) → apply false rps call ≡ rps
  unfolding apply Redis.delete
  apply-false rps (writes k v) = write_entry_lem false rps k v ∙ set-false rps _ _
  apply-false rps (deletes k d) = delete_entry_lem false rps k d

  get-apply_other :
      (rps : r.State) (call : Call) (key : String)
      → key ≢ key_text (target call)
      → r.get (apply true rps call) key ≡ r.get rps key
  unfolding apply Redis.delete
  get-apply_other rps (writes k v) key n =
      rw (write_entry_lem true rps k v) (get-set_other rps key _ _ n)
  get-apply_other rps (deletes k d) key n =
      rw (delete_entry_lem true rps k d) (r.get-del_other rps key (key_text k) n)

  -- A write of a value with no JSON text is lost, whether the server answers or not.
  apply-not_sendable :
      (up : Bool) (rps : r.State) (call : Call) → is_sendable call ≡ false → apply up rps call ≡ rps
  unfolding apply Redis.set
  apply-not_sendable up rps (writes k v) h =
      write_entry_lem up rps k v ∙ rw (marshal-not_marshalable k v h) refl
  apply-not_sendable up rps (deletes k d) h = cc

  read_entry-apply :
      (rps : r.State) (call : Call)
      → is_sendable call ≡ true
      → read_entry true (apply true rps call) (target call) ≡ outcome call
  unfolding apply Redis.set Redis.delete
  read_entry-apply rps (writes k v) h =
      read_entry_lem _ k
      ∙ rw
          (
            write_entry_lem true rps k v,
            marshal-is_marshalable k v h,
            r.get-set rps (key_text k),
            unmarshal-encode_content k v,
          )
          refl
  read_entry-apply rps (deletes k d) h =
      read_entry_lem _ k ∙ rw (delete_entry_lem true rps k d, r.get-del rps (key_text k)) refl

  -- A call that the server carries out and that leaves the entry of `k` alone: it is on another
  -- entry whose names hold no slash, or it has nothing to send.
  abbrev pub Spares : Key → Call → Type 0
  Spares k call = (IsClean (target call) × (k ≢ target call)) ⊎ (is_sendable call ≡ false)

  -- No answered call is on the entry of `k`; one that is not answered may be.
  abbrev pub Follows : Key → Attempt → Type 0
  Follows k (answered call) = Spares k call
  Follows k (unanswered applied call) = IsClean (target call)

  get-apply :
      (rps : r.State) (call : Call) (k : Key)
      → IsClean k
      → Spares k call
      → r.get (apply true rps call) (key_text k) ≡ r.get rps (key_text k)
  get-apply rps call k hk (inl (clean, n)) =
      get-apply_other rps call (key_text k) (λ e. n (key_text_injective k (target call) hk clean e))
  get-apply rps call k hk (inr h) = rw (apply-not_sendable true rps call h) refl

  -- Each call is on the entry and has something to send, or it leaves the entry alone.
  on_entry :
      (k : Key) (call : Call)
      → IsClean k
      → IsClean (target call)
      → ((target call ≡ k) × (is_sendable call ≡ true)) ⊎ Spares k call
  on_entry k call hk clean = elim (Bool-cases (is_sendable call)) [
    | inr h ↦ inr (inr h)
    | inl h ↦ elim (Bool-cases (str_eq (key_text k) (key_text (target call)))) [
      | inl e ↦ inl (sym (key_text_injective k (target call) hk clean ((eq_iff _ _).0 e)), h)
      | inr n ↦ inr (inl (clean, λ e. cc (n, (eq_iff _ _).1 (ap key_text e))))
    ]
  ]

  -- The entry of `k` is as one of the calls left it: the first, or one that was carried out without
  -- an answer.
  record IsLeft (k : Key) (call : Call) (attempts : List Attempt) (rps : r.State) : Type 0 where
    pub last : Call
    pub before : r.State
    pub made : (last ≡ call) ⊎ In (unanswered true last) attempts
    pub on_key : target last ≡ k
    pub sent : is_sendable last ≡ true
    pub left : r.get rps (key_text k) ≡ r.get (apply true before last) (key_text k)

  IsLeft-later :
      (k : Key) (call : Call) (a : Attempt) (attempts : List Attempt) (rps : r.State)
      → IsLeft k call attempts rps
      → IsLeft k call (a ∷ attempts) rps
  IsLeft-later k call a attempts rps l = record {
    last = l.last;
    before = l.before;
    made = elim l.made [ inl e ↦ inl e | inr i ↦ inr (inr i) ];
    on_key = l.on_key;
    sent = l.sent;
    left = l.left;
  }

  run-IsLeft :
      (k : Key) (call : Call) (attempts : List Attempt) (rps before : r.State)
      → IsClean k
      → target call ≡ k
      → is_sendable call ≡ true
      → r.get rps (key_text k) ≡ r.get (apply true before call) (key_text k)
      → All (Follows k) attempts
      → IsLeft k call attempts (run rps attempts)
  unfolding run step
  run-IsLeft k call [] rps before hk on h e hs = record {
    last = call;
    before = before;
    made = inl refl;
    on_key = on;
    sent = h;
    left = e;
  }
  run-IsLeft k call (answered c ∷ attempts) rps before hk on h e (f, fs) =
      IsLeft-later k call (answered c) attempts _ (
        run-IsLeft k call attempts (apply true rps c) before hk on h (get-apply rps c k hk f ∙ e)
          fs)
  run-IsLeft k call (unanswered false c ∷ attempts) rps before hk on h e (f, fs) =
      IsLeft-later k call (unanswered false c) attempts _ (
        run-IsLeft k call attempts (apply false rps c) before hk on h (rw (apply-false rps c) e) fs)
  run-IsLeft k call (unanswered true c ∷ attempts) rps before hk on h e (f, fs) =
      elim (on_entry k c hk f) [
        | inr spares ↦ IsLeft-later k call (unanswered true c) attempts _ (
            run-IsLeft k call attempts (apply true rps c) before hk on h
              (get-apply rps c k hk spares ∙ e) fs)
        | inl (on', h') ↦
            let l = run-IsLeft k c attempts (apply true rps c) rps hk on' h' refl fs in
            record {
              last = l.last;
              before = l.before;
              made = elim l.made [
                | inl same ↦ inr (inl (ap (unanswered true) same))
                | inr i ↦ inr (inr i)
              ];
              on_key = l.on_key;
              sent = l.sent;
              left = l.left;
            }
      ]

  -- What is found under `k` is the outcome of the call.
  abbrev pub IsOutcome : (k : Key) → Option (Content k) → Call → Type 0
  IsOutcome k found call =
      (e : target call ≡ k) × PathP (λ i. Option (Content (e i))) (outcome call) found

  -- It is the outcome of the call, or of one of the attempts that was carried out unanswered.
  abbrev pub IsPossible : (k : Key) → Call → List Attempt → Option (Content k) → Type 0
  IsPossible k call attempts found =
      (last : Call) × ((last ≡ call) ⊎ In (unanswered true last) attempts) × IsOutcome k found last

  IsLeft-IsOutcome :
      (k : Key) (call : Call) (attempts : List Attempt) (rps : r.State)
      (l : IsLeft k call attempts rps)
      → IsOutcome k (read_entry true rps k) l.last
  IsLeft-IsOutcome k call attempts rps l =
      let found = λ (j : Key). read_entry true (apply true l.before l.last) j in
      let same : found k ≡ read_entry true rps k =
        read_entry_lem _ k ∙ ap (cached (unmarshal k)) (sym l.left) ∙ sym (read_entry_lem rps k) in
      (
        l.on_key,
        subst (λ x. PathP (λ i. Option (Content (l.on_key i))) (outcome l.last) x) same
            (subst (λ y. PathP (λ i. Option (Content (l.on_key i))) y (found k))
              (read_entry-apply l.before l.last l.sent) (λ i. found (l.on_key i))),
      )

  -- After a call on an entry that the server answered, a read that it answers finds the outcome of
  -- that call, which is the value that it wrote or nothing if it deleted, or else the outcome of a
  -- call on the entry that the server carried out later without answering it. The answered calls
  -- that follow are on other entries or have no JSON text to send; those without an answer are any.
  -- The call's own value has a text, and no name of the calls holds a slash, but for later answered
  -- ones with nothing to send.
  pub read_entry-run_answered :
      (rps : r.State) (call : Call) (attempts : List Attempt)
      → IsClean (target call)
      → is_sendable call ≡ true
      → All (Follows (target call)) attempts
      → IsPossible
          (target call)
          call
          attempts
          (read_entry true (run (step rps (answered call)) attempts) (target call))
  unfolding step
  read_entry-run_answered rps call attempts clean h follow =
      let l =
        run-IsLeft (target call) call attempts (apply true rps call) rps clean refl h refl follow in
      (l.last, l.made, IsLeft-IsOutcome (target call) call attempts _ l)
