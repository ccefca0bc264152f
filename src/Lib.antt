-- ===== src/Lib.antt =====
-- gotop: a terminal monitor. This library models the parts of the program that hold its own logic
-- and proves what makes them correct.
--
-- The program (cmd/gotop/main.go) reads a configuration file (config.go), the options of its
-- command line and a layout (layout/parser.go), builds a grid of widgets from the layout
-- (layout/layout.go), and runs a loop that draws the grid at each tick and passes each key to the
-- process list (widgets/proc.go) or acts on it. The process list is a scrolling table
-- (termui/table.go) with a filter (termui/entry.go). Other widgets show what the sources of data
-- under devices/ fetch; widgets/net.go fetches its own.
--
-- Which file models what:
--   Prelude: numbers, lists, the integers of Go, decimal text, the functions of Go's `strings` and
--     `bufio` on ASCII text, and maps as lists of entries.
--   Termui/Table: `Table` of termui/table.go: its fields, the methods that move the cursor
--     (`calcPos`, `ScrollUp`, ..., `HandleClick`) in Table.antt, `Draw` in Table/Draw.antt. A
--     drawing is the list of the texts that it writes. What moves keep stands in Table/Cursor, what
--     `Draw` does to the cursor in Table/Follow, what it writes in Table/Draw/Bounds and
--     Table/Draw/Total, what it keeps in Table/Draw/Rows.
--   Termui/Entry: `HandleEvent`, `SetEditing` and `Draw` of termui/entry.go.
--   Termui/LineGraph: `Draw` of termui/linegraph.go; LineGraph/Plot is about the points that it
--     plots. Termui/Numbered: `Less` of that file, the order of the series. Termui/Sparkline: `Draw` of
--     termui/sparkline.go; Sparkline/Columns is about where it writes.
--   Layout/Parser: `ParseLayout` of layout/parser.go. Layout/Rows: `processRow` and the loop of
--     `Layout` in layout/layout.go; Rows/Progress and Rows/Cover hold what they keep.
--     Layout/Widgets: `makeWidget`, `assignColors`, `deepFindWidget`, `deepFindScalable` and the
--     whole of `Layout`; Widgets/Find is about the searches, Widgets/Named about the
--     widget for a name, Widgets/Grid and Widgets/Total about the grid that is returned.
--   Config: `load` and `marshal` (Config/Marshal) of config.go; Config/RoundTrip, Config/Options and
--     Config/Reload on reading back what was written; Config/Errors on texts that hold no options.
--   Widgets/Proc: `ProcWidget` of widgets/proc.go, each method a function on its state; Proc/Group
--     is about `groupProcs`, Proc/Rows about the rows in all states that events, kills and drawings lead to, Proc/Kill
--     about `KillProc`; Proc/New is `NewProcWidget`, and Proc/Ps `getProcs` of
--     widgets/proc_linux.go.
--   Widgets/Net, Widgets/Disk, Widgets/Temp: `update` of widgets/net.go and widgets/disk.go, the
--     start, `update` and `Draw` of widgets/temp.go; Net/Recent, Disk/Kept and Temp/Lines are about
--     what they count, which partitions they keep, and where they write.
--   EventLoop: `eventLoop` of cmd/gotop/main.go, one turn at a time, with the effects that a turn has
--     on the screen and the commands that it starts; EventLoop/Keys, EventLoop/Filter and
--     EventLoop/Scale are about commands, the filter and the scale of the graphs. EventLoop/Modes
--     is a machine of three modes that the loop implements, with Modes/Drawn on renderings that
--     panic, EventLoop/Quit about leaving the loop.
--   Start: `NewConfig` and `Load` of config.go, `parseArgs`, `getLayout` and `run` of
--     cmd/gotop/main.go. Start/Flags is about the options, Start/Run, with Start/Colored, about how
--     a start ends.
--   Logging: `New`, `Write` and `rotate` of logging/logging.go, over an interface of the files;
--     Logging/Rotate states the laws of the files, and what is kept of the logs.
--   Colorschemes: `register` and `FromName` of colorschemes/registry.go.
--   Devices/Registry: the functions of devices/devices.go, and the loop that devices/temp.go,
--     devices/cpu.go and devices/mem.go share.
--   Devices/Remote: `process`, `procInt`, `parseConfig` and the updates of devices/remote.go.
--   Devices/Nvidia: devices/nvidia.go; Nvidia/Rows is about the rows that the caches keep.
--   Utils: `ConvertBytes` and other helpers of utils/; Utils/Runes: `TruncateFront`.
--
-- State is passed explicitly: an operation is a function from the old state to the new one, and
-- `none`, or a constructor `panicked`, stands for a run-time panic. A widget may panic when it is
-- drawn, so the loop takes with each input which renderings return. An `int` that counts rows,
-- cells or processes is an integer without wrap-around; the scale of the graphs wraps around;
-- `Atoi` has the bounds of a 64-bit `int`, and the byte counters of widgets/net.go and
-- widgets/disk.go are kept below 2 ^ 64. The loop of `Layout` runs on fuel, one unit for a row;
-- each round takes a row at least, so the fuel does not run out. Text is a list of
-- codes: of ASCII bytes where the program scans it, of runes where it edits it.
--
-- The order of names runs on fuel too, one unit more than the first name is long.
--
-- Code that is not the program's own is a parameter: the painting of termui and its trimming of a
-- text to a width, the parser of options goopt, the CSV reader, `float64` and its formatting,
-- `sort.Sort`, the order in which Go walks a map, the translations, files, `time.ParseDuration`,
-- and what the operating system returns for processes, network interfaces and partitions. The
-- start of the program also takes the lookup of a colour scheme, the writing of the
-- configuration, `devices.Startup`, the first rendering and the series of a graph at its start as
-- parameters. Time, goroutines and locks are not modelled: a tick is an input like a key.
--
-- Not modelled: `Draw` of termui/gauge.go; termui/drawille-go, a copy of another project's
-- library, whose canvas is a parameter of the graphs; the search for the configuration directory
-- and the writing of the configuration, which are input and output; the tables of colours; the
-- platform-dependent sources under devices/ but for devices/nvidia.go, and of processes but for
-- Linux; the widgets that only show a number.
pub mod Prelude
pub mod Termui
pub mod Layout
pub mod Config
pub mod Widgets
pub mod EventLoop
pub mod Utils
pub mod Devices
pub mod Colorschemes
pub mod Logging
pub mod Start
