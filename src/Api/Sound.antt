-- ===== src/Api/Sound.antt =====
-- libslinga/libslinga.c and the drivers: what holds of the globals of a library in use, and the parts
-- of calls that keep it.
use libslinga.Prelude.{◌∙◌, sym, ok_injective, ℕ, ◌≡◌, ◌≢◌, refl, arith, none, Bool, true, false}
use libslinga.Prelude.{◌==◌, Result, ok, err, diverge, Error, inl, inr, Bool-cases}
use libslinga.Devices.Saturn.Laws.{Partitioned, Fits, get_partition_info-Fits}
use libslinga.Prelude.Action.{update, ◌>>=◌, ◌>>◌, lift, query, reject, continue_with}
use libslinga.Cartridge.{get_cartridge_type}
use libslinga.Memory.{Io}
use libslinga.Context.{Context, Call, on_memory, mark_present, device_cartridge}
use libslinga.Sat.Partition.{PartitionInfo}
use libslinga.Devices.Saturn
use libslinga.Devices.Saturn.{get_partition_info}
use libslinga.Api.Laws.{Initialized, driver_for}

-- The globals of a library in use: every device type has its driver, or none; a device that was
-- found present has a driver; and a cartridge that was has a partition that the SAT functions can
-- work on.
pub record Ready (c : Context) : Type 0 where
  pub drivers : Initialized c
  pub has_driver : (d : ℕ) → c.is_present d ≡ true → driver_for d ≢ none
  pub has_partition :
      c.is_present device_cartridge ≡ true
      → (p : PartitionInfo) × (get_partition_info device_cartridge c.cartridge_type ≡ ok p) × Fits p

abbrev pub Sound : Context → Type 0
Sound c = c.is_init ≡ true → Ready c

-- A call that keeps the globals sound, on failure too.
pub record Keeps {A : Type 0} (call : Call A) : Type 0 where
  pub keeps : (c : Context) → Sound c → Sound (call c).1

continue-Sound :
    {A B : Type 0} (f : A → Call B) (r : Result A) (c : Context)
    → Sound c
    → ((a : A) → Keeps (f a))
    → Sound (continue_with f r c).1
continue-Sound f (ok a) c s h = (h a).keeps c s
continue-Sound f (err e) c s h = s
continue-Sound f diverge c s h = s

pub Keeps-bind :
    {A B : Type 0} (call : Call A) (f : A → Call B)
    → Keeps call
    → ((a : A) → Keeps (f a))
    → Keeps (call >>= f)
Keeps-bind call f h k = record {
  keeps = λ c s. continue-Sound f (call c).0 (call c).1 (h.keeps c s) k;
}

pub Keeps-lift : {A : Type 0} (r : Result A) → Keeps (lift r)
Keeps-lift r = record { keeps = λ c s. s }

pub Keeps-query : {A : Type 0} (f : Context → Result A) → Keeps (query f)
Keeps-query f = record { keeps = λ c s. s }

pub Keeps-reject : (bad : Bool) (e : Error) → Keeps (reject bad e)
Keeps-reject true e = record { keeps = λ c s. s }
Keeps-reject false e = record { keeps = λ c s. s }

pub Keeps-guard :
    {A : Type 0} (bad : Bool) (e : Error) (call : Call A)
    → Keeps call
    → Keeps (reject bad e >> call)
Keeps-guard bad e call h = Keeps-bind (reject bad e) (λ t. call) (Keeps-reject bad e) (λ t. h)

pub Keeps-on_memory : {A : Type 0} (io : Io A) → Keeps (on_memory io)
Keeps-on_memory io = record {
  keeps = λ c s on.
      let r = s on in
      record {
        drivers = record { is_init = on; drivers = r.drivers.drivers };
        has_driver = r.has_driver;
        has_partition = r.has_partition;
      };
}

-- A device other than the cartridge is marked present.
pub Keeps-mark : (d : ℕ) → driver_for d ≢ none → d ≢ device_cartridge → Keeps (mark_present d)
unfolding mark_present
Keeps-mark d known other = record {
  keeps = λ c s on.
      let r = s on in
      record {
        drivers = record { is_init = on; drivers = r.drivers.drivers };
        has_driver = λ x present. elim (Bool-cases (x == d)) [
          | inl here ↦ has_it x here
          | inr there ↦ r.has_driver x (rw there at present)
        ];
        has_partition = λ present. r.has_partition (rw not_it at present);
      };
}
  where
    has_it : (x : ℕ) → (x == d) ≡ true → driver_for x ≢ none
    has_it x here = rw (same_index here) known
      where
        same_index : (x == d) ≡ true → x ≡ d
        same_index e = ground arith

    not_it : (device_cartridge == d) ≡ false
    not_it = ground arith

-- The cartridge is marked present only once its partition is known.
pub probe-Keeps : Keeps Saturn.probe_cartridge
unfolding Saturn.probe_cartridge Saturn.is_supported_backup_cartridge mark_present driver_for
probe-Keeps = record {
  keeps = λ c s. by_type c s (Saturn.detected (get_cartridge_type c.memory)) refl;
}
  where
    by_info :
        (c : Context) (cart_type : ℕ)
        → Sound c
        → (r : Result PartitionInfo) → get_partition_info device_cartridge cart_type ≡ r
        → Sound
            (continue_with
              (λ cart_type.
                Saturn.is_supported_backup_cartridge cart_type
                >> (update (λ c. record c { cartridge_type = cart_type })
                    >> mark_present device_cartridge))
              (ok cart_type)
              c).1
    by_info c cart_type s (ok p) e = rw e (λ on.
        let r = s on in
        record {
          drivers = record { is_init = on; drivers = r.drivers.drivers };
          has_driver = λ x present. elim (Bool-cases (x == device_cartridge)) [
            | inl here ↦ saturn x here
            | inr there ↦ r.has_driver x (rw there at present)
          ];
          has_partition =
              λ present. (p, e, its_fit (get_partition_info-Fits device_cartridge cart_type));
        })
      where
        saturn : (x : ℕ) → (x == device_cartridge) ≡ true → driver_for x ≢ none
        saturn x here = ground arith

        its_fit : Partitioned (get_partition_info device_cartridge cart_type) → Fits p
        its_fit (inl (q, e', f)) = rw (ok_injective (sym e ∙ e')) f
        its_fit (inr e') = cc (e, e')
    by_info c cart_type s (err code) e = rw e s
    by_info c cart_type s diverge e = rw e s

    by_type :
        (c : Context)
        → Sound c
        → (r : Result ℕ) → Saturn.detected (get_cartridge_type c.memory) ≡ r
        → Sound (Saturn.probe_cartridge c).1
    by_type c s (ok cart_type) e =
        rw e (by_info c cart_type s (get_partition_info device_cartridge cart_type) refl)
    by_type c s (err code) e = rw e s
    by_type c s diverge e = rw e s
