-- ===== src/Identity/Tests.antt =====
-- Runs of the registration on concrete input.
use urja_setu.Base.{◌≡◌, refl, true, false, none, some, [], ◌∷◌, err}
use urja_setu.Identity.Vocabulary.{consumer, prosumer, active, pending}
use urja_setu.Identity.Store.{IdentityRegistry}
use urja_setu.Identity.Service.{create_user, user_email_already_exists}
use urja_setu.Identity.Registration.{UserUpdate, update_user}

abbrev one_user : IdentityRegistry
one_user = record {
  users =
      record { id = 1; email = some 100; has_name = true; role = prosumer; status = pending } ∷ [];
  utility_accounts = [];
  consents = [];
  sites = [];
  meters = [];
  energy_assets = [];
  inverters = [];
  verification_records = [];
  grid_nodes = [];
  next_id = 2;
}

-- A blank name is reported as an address that is taken, even where no address is given.
blank_name_reported :
    create_user none false consumer active one_user ≡ err user_email_already_exists
unfolding create_user
blank_name_reported = refl

abbrev null_status : UserUpdate
null_status = record { display_name = none; email = none; status = some none }

null_status_reported : update_user 1 null_status one_user ≡ err user_email_already_exists
unfolding update_user
null_status_reported = refl
