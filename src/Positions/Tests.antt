-- ===== src/Positions/Tests.antt =====
-- The theorems on services/position_tracker_rust/src/main.rs at examples.
use arbees.Prelude.{
  ℕ, zero, suc, ◌≡◌, refl, String, true, false, not, none, some, List, [], ◌∷◌, filter, leb, arith,
  if◌then◌else◌,
}
use package.text.Mathlib.Text.{◌==◌}
use arbees.Prelude.Int.{ℤ, pos}
use arbees.Prelude.Dict.{Dict, lookup}
use arbees.Prelude.Float.{fixed}
use arbees.Prelude.Json.{Tree, text, number, object, field, no_fields, tree_json}
use arbees.Engine.State.{ok, kalshi, nba}
use arbees.Positions.State.{Config, buy, OpenPosition, Bankroll, Account, PositionTracker, World}
use arbees.Positions.Close.{close_position, reverse}
use arbees.Positions.Settle.{name_at, handle_game_ended}
use arbees.Positions.Settling.{IsQuiet, IsSynced, IsClosed}
use arbees.Positions.GameEnds.{settled, handle_game_ended_lem}
use arbees.Positions.Conflict.{IsOvertaken, overtaken, close_position-lost}
use arbees.Positions.Exit.{debounce}
use arbees.Positions.Debounce.{streak, counts_after, debounce-streak}

abbrev config : Config ℤ
config = record {
  take_profit_pct = pos 30_000;
  initial_bankroll = pos 10_000_000;
  min_hold_seconds = 10;
  price_staleness_ttl = pos 300_000;
  require_valid_book = true;
  debounce_exit_checks = 2;
  piggybank_pct = pos 5_000;
  slippage_buffer_pct = pos 5_000;
}

abbrev position_in : String → OpenPosition ℤ
position_in game = record {
  trade_id = game;
  signal_id = "s";
  game_id = game;
  sport = nba;
  platform = kalshi;
  market_id = "m";
  market_title = "bulls";
  side = buy;
  entry_price = pos 5_000;
  size = pos 100_000;
  entry_time = 1;
  contract_team = some "bulls";
  entry_fees = pos 100;
}

abbrev account : Account ℤ
account = record {
  current_balance = pos 10_000_000;
  piggybank_balance = pos 0;
  bankroll_version = 4;
  bankroll = record { balance = pos 10_000_000; piggybank = pos 0; version = 4 };
}

abbrev tracker : PositionTracker ℤ
tracker = record {
  config = config;
  open_positions = position_in "g1" ∷ position_in "g2" ∷ position_in "g1" ∷ [];
  positions_opened = 3;
  positions_closed = 0;
  exit_trigger_counts = [];
  game_cooldowns = [];
  account = account;
  price_cache = [];
  published = [];
}

abbrev quiet : World ℤ
quiet = record {
  now = 9;
  trade_fails = false;
  publish_fails = false;
  update_fails = λ n. false;
  reload_fails = λ n. false;
  before_update = λ n b. b;
  before_reload = λ n b. b;
}

quiet-IsQuiet : (n : ℕ) → IsQuiet fixed quiet
quiet-IsQuiet n = record {
  trade_done = refl;
  published_done = refl;
  update_done = refl;
  untouched = λ b. refl;
}

account-IsSynced : IsSynced fixed account
unfolding fixed
account-IsSynced = record { same_version = refl; same_balance = refl; same_piggybank = refl }

abbrev by_letters : String → List String
by_letters s = s ∷ []

abbrev final : Tree
final = object (
    field "game_id" (text "g1") (
      field "home_team" (text "bulls")
        (field "home_score" (number 100) (field "away_score" (number 90) no_fields))))

final-name : name_at fixed tree_json by_letters final "game_id" ≡ "g1"
unfolding lookup
final-name = refl

handle_game_ended_lem_example :
    ((handle_game_ended fixed tree_json by_letters (λ n. quiet) final tracker).1 ≡ ok tt)
    × IsClosed fixed tracker
        ((handle_game_ended fixed tree_json by_letters (λ n. quiet) final tracker).0)
        (filter (λ p. not (p.game_id == "g1")) tracker.open_positions)
        (reverse (settled fixed tree_json by_letters "g1" final tracker.open_positions))
handle_game_ended_lem_example =
    handle_game_ended_lem fixed tree_json by_letters (λ n. quiet) final "g1" tracker quiet-IsQuiet
      account-IsSynced final-name refl

-- A second process has won a hundred and saved it.
abbrev other_process : ℕ → Bankroll ℤ → Bankroll ℤ
other_process zero b = record { balance = pos 11_000_000; piggybank = pos 0; version = 5 }
other_process (suc n) b = b

abbrev overtaken_world : World ℤ
overtaken_world = record quiet { before_update = other_process }

tracker-IsOvertaken : IsOvertaken fixed overtaken_world account
unfolding fixed
tracker-IsOvertaken = record {
  trade_done = refl;
  published_done = refl;
  updates_done = (refl, refl);
  reload_done = refl;
  newer = λ e. ground (arith, e);
  reloads_it = λ b. refl;
  in_cents = (refl, refl);
  then_alone = λ b. refl;
}

close_position-lost_example :
    ((close_position fixed overtaken_world tracker
        (position_in "g1")
        (pos 10_000)
        "game_settlement").1
      ≡ ok tt)
    × ((close_position fixed overtaken_world tracker
          (position_in "g1")
          (pos 10_000)
          "game_settlement").0.account
        ≡ overtaken fixed (overtaken_world.before_update 0 tracker.account.bankroll))
close_position-lost_example =
    close_position-lost fixed overtaken_world tracker (position_in "g1") (pos 10_000)
      "game_settlement" tracker-IsOvertaken

abbrev the_counts : Dict ℕ
the_counts = []

no_count : lookup "t" the_counts ≡ none
unfolding lookup
no_count = refl

debounce-streak_example :
    (debounce fixed config "t"
      (some "stop")
      (counts_after fixed config "t" (some "stop" ∷ []) the_counts)).1
    ≡ (if leb config.debounce_exit_checks (streak (some "stop" ∷ some "stop" ∷ []))
        then some "stop"
        else none)
debounce-streak_example =
    debounce-streak fixed config "t" (some "stop") (some "stop" ∷ []) the_counts (omega arith)
      no_count
