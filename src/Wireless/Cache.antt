-- ===== src/Wireless/Cache.antt =====
-- `loadCache` of wireless.js: what is kept of each radio, and when the load is done.
pub mod Resolved
use text.Mathlib.Text.{◌==◌ as str_eq}
use xluci.Prelude.{
  ℕ, ◌-◌, String, Bool, true, false, ◌||◌, not, Option, none, some, List, [], ◌∷◌, ◌++◌, ◌==◌, leb,
  ltb, length, if◌then◌else◌,
}
use xluci.Prelude.Dict.{Dict, put}
use xluci.Uci.Access.{contains}

-- The name under which the router knows the radio of a section.
unfoldable pub radio_name : String → String
radio_name sid =
    if str_eq sid "mt7620" || str_eq sid "mt7628"
    then "ra0"
    else if str_eq sid "mt7612e"
    then "rai0"
    else sid

-- An element of the list of frequencies.
pub record Frequency : Type 0 where
  pub channel : ℕ
  pub mhz : ℕ
  pub restricted : Bool

-- The status of a radio, where `getDeviceStatus` returned one: it returns nothing for an empty reply.
pub record Info : Type 0 where
  pub hwmodes : List String
  pub htmodes : List String
  pub country : Option String

-- The replies of the router for one radio; `V` is what is kept as it comes.
pub record Answer (V : Type 0) : Type 0 where
  pub freqlist : List Frequency
  pub txpwrlist : V
  pub countrylist : V
  pub info : Option Info

-- Three elements of a list of channels: the value, the label and whether it may be chosen; the label of
-- a channel is '%d (%d MHz)' of its two numbers.
pub data Choice : Type 0 where
  auto : Choice
  channel : ℕ → ℕ → Bool → Choice

-- The two lists of channels, of 2.4 and 5 GHz.
pub record Channels : Type 0 where
  pub g : List Choice
  pub a : List Choice

unfoldable pub channels_of : List Frequency → Channels → Channels
channels_of [] c = c
channels_of (f ∷ l) c =
    let choice = channel f.channel f.mhz (not f.restricted) in
    if ltb 2484 f.mhz
    then channels_of l (record c { a = c.a ++ choice ∷ [] })
    else channels_of l (record c { g = c.g ++ choice ∷ [] })

-- channels[…].length > 3, with three elements for each choice
unfoldable pub has_channels : List Choice → Bool
has_channels l = ltb 1 (length l)

-- self.modes[sid]: the modes, and whether the radio has them
unfoldable pub modes_of : Channels → Info → List (String × Bool)
unfolding has_channels
modes_of c info =
    ("11g", has_channels c.g)
    ∷ ("11a", has_channels c.a)
    ∷ ("11n", contains info.hwmodes "n")
    ∷ ("11ac", contains info.hwmodes "ac")
    ∷ []

-- self.htmodes[sid]: by mode, the widths with their labels
unfoldable pub htmodes_of : Info → Dict (List (String × (String × Bool)))
htmodes_of info =
    ("11g", [])
    ∷ ("11a", [])
    ∷ (
      "11n",
      ("HT20", ("20 MHz", contains info.htmodes "HT20"))
          ∷ ("HT40", ("40 MHz", contains info.htmodes "HT40"))
          ∷ [],
    )
    ∷ (
      "11ac",
      ("VHT20", ("20 MHz", contains info.htmodes "VHT20"))
          ∷ ("VHT40", ("40 MHz", contains info.htmodes "VHT40"))
          ∷ ("VHT80", ("80 MHz", contains info.htmodes "VHT80"))
          ∷ ("VHT160", ("160 MHz", contains info.htmodes "VHT160"))
          ∷ [],
    )
    ∷ []

-- self.bands[sid]: by mode, the bands with their labels
unfoldable pub bands_of : Channels → Dict (List (String × (String × Bool)))
unfolding has_channels
bands_of c =
    ("11g", ("11g", ("2.4 GHz", has_channels c.g)) ∷ [])
    ∷ ("11a", ("11a", ("5 GHz", has_channels c.a)) ∷ [])
    ∷ ("11n", ("11g", ("2.4 GHz", has_channels c.g)) ∷ ("11a", ("5 GHz", has_channels c.a)) ∷ [])
    ∷ ("11ac", ("11a", ("5 GHz", true)) ∷ [])
    ∷ []

-- The variables of the load: `cnt`, what is kept by section, and whether `d` is resolved.
pub record Cache (V : Type 0) : Type 0 where
  pub cnt : ℕ
  pub channels : Dict Channels
  pub modes : Dict (List (String × Bool))
  pub htmodes : Dict (Dict (List (String × (String × Bool))))
  pub bands : Dict (Dict (List (String × (String × Bool))))
  pub txpwrlist : Dict V
  pub countrylist : Dict V
  pub info : Dict (Option String)
  pub resolved : Bool

-- The state before the first answer, for the number of sections of the type wifi-device.
unfoldable pub start : {V : Type 0} → ℕ → Cache V
start n = record {
  cnt = n;
  channels = [];
  modes = [];
  htmodes = [];
  bands = [];
  txpwrlist = [];
  countrylist = [];
  info = [];
  resolved = false;
}

-- The callback of one radio. It counts first, and throws at `info.hwmodes` where there is no status.
unfoldable pub answer : {V : Type 0} → String → Answer V → Cache V → Cache V
unfolding channels_of modes_of htmodes_of bands_of
answer sid reply st = elim reply.info [
  | none ↦ record st { cnt = st.cnt - 1 }
  | some info ↦
      let c = channels_of reply.freqlist (record { g = auto ∷ []; a = auto ∷ [] }) in
      record {
        cnt = st.cnt - 1;
        channels = put sid c st.channels;
        modes = put sid (modes_of c info) st.modes;
        htmodes = put sid (htmodes_of info) st.htmodes;
        bands = put sid (bands_of c) st.bands;
        txpwrlist = put sid reply.txpwrlist st.txpwrlist;
        countrylist = put sid reply.countrylist st.countrylist;
        info = put sid info.country st.info;
        resolved = if st.cnt - 1 == 0 then true else st.resolved;
      }
]

-- The answers, in the order in which they come.
unfoldable pub answers : {V : Type 0} → List (String × Answer V) → Cache V → Cache V
unfolding answer
answers [] st = st
answers ((sid, reply) ∷ l) st = answers l (answer sid reply st)
