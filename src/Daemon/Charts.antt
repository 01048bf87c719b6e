-- ===== src/Daemon/Charts.antt =====
-- src/server.c, `Create_Chart_Reports`: the page of one file system, written to a file in which the
-- last comma of each table is taken back. A file that is written is its bytes and the place of the
-- next write. `%7.1lf` is an argument; the numbers of a row have no sign.
pub mod Page
pub mod Job
pub mod Names
pub mod Outcome
pub mod Ending
use Prim.Native.String.{String}
use ooops.Prelude.{
  ℕ, ◌+◌, ◌-◌, Option, none, some, List, [], ◌∷◌, ◌++◌, map, Text, length, take, drop, leb,
  if◌then◌else◌, codes,
}
use ooops.Floats.{Floats}
use ooops.Daemon.Reports.{Row, Log}
use ooops.Daemon.Logs.{digits}

pub record Stream : Type 0 where
  pub bytes : Text
  pub place : ℕ

-- `fprintf`: over the bytes that stand there.
unfoldable pub fprintf : Text → Stream → Stream
fprintf s f = record {
  bytes = take f.place f.bytes ++ s ++ drop (f.place + length s) f.bytes;
  place = f.place + length s;
}

unfoldable pub fprintf_all : List Text → Stream → Stream
fprintf_all [] f = f
fprintf_all (s ∷ ss) f = fprintf_all ss (fprintf s f)

-- `fseek(f, -2, SEEK_END)`, which fails in a file of less than 2 bytes.
unfoldable pub back_two : Stream → Stream
back_two f = if leb 2 (length f.bytes) then record f { place = length f.bytes - 2 } else f

-- `fopen(name, "w")`
abbrev pub new_stream : Stream
new_stream = record { bytes = []; place = 0 }

-- Up to the first table, with the references to the pages of all file systems.
unfoldable pub head_lines : Text → List Text
head_lines href =
    map codes (
      "<html>\n" ∷ "  <meta http-equiv=\"Content-Type\" content=\"text/html\" />\n" ∷ "<head>\n"
      ∷ "  <style>\n"
      ∷ "  a.mytxt:link {color:#3366cc;font-size:180%;padding:80px;font-weight: bold;}\n"
      ∷ "  a.mytxt:visited {color:#cc0066;font-size:180%;padding:80px;font-weight: bold;}\n"
      ∷ "  a.mytxt:hover {background:#66ff66;font-size:180%;padding:80px;font-weight: bold;}\n"
      ∷ "  </style>\n"
      ∷ "  <script type=\"text/javascript\" src=\"https://www.gstatic.com/charts/loader.js\"></script>\n"
      ∷ "</head>\n" ∷ [])
    ++ (codes "<div style=\"text-align: center\">\n" ++ href ++ codes "\n</div>\n")
      ∷ map codes (
          "<body>\n"
          ∷ "  <div id=\"chart_div\" style=\"width: 1280px; height: 700px;\" align=\"center\"></div>\n"
          ∷ "  <div id=\"chart2_div\" style=\"width: 1280px; height: 700px;\" align=\"center\"></div>\n"
          ∷ " <script type=\"text/javascript\">\n"
          ∷ "      google.charts.load('current', {'packages':['corechart']});\n"
          ∷ "      google.charts.setOnLoadCallback(drawChart);\n"
          ∷ "      google.charts.setOnLoadCallback(drawChart2);\n" ∷ "     function drawChart() {\n"
          ∷ "        var data = google.visualization.arrayToDataTable([\n" ∷ [])

-- What stands before the comma of each line of the first and of the second table.
unfoldable pub count_title : Text
count_title = codes "         ['t(seconds)', 'nOpen', 'nOpen_delayed', 'nStat', 'nStat_delayed']"

unfoldable pub rate_title : Text
rate_title = codes "         ['t(seconds)', 'dnOpen', 'dnOpen_delayed', 'dnStat', 'dnStat_delayed']"

-- The axes of both charts.
unfoldable pub axis_lines : List Text
axis_lines = map codes (
    "          hAxis: {title: 'Time (seconds)',  titleTextStyle: {color: '#333'},\n"
    ∷ "                   slantedText:true, slantedTextAngle:80},\n"
    ∷ "          vAxis: {minValue: 0},\n" ∷ "          explorer: { \n"
    ∷ "            actions: ['dragToZoom', 'rightClickToReset'],\n"
    ∷ "            axis: 'horizontal',\n" ∷ "            keepInBounds: true,\n"
    ∷ "            maxZoomIn: 30.0},\n" ∷ "        };\n" ∷ [])

-- From the first table to the second one.
unfoldable pub middle_lines : Text → List Text
middle_lines name =
    codes "        var options = {\n"
      ∷ (codes "          title: 'Accumulated Lustre access on /" ++ name ++ codes "',\n")
      ∷ axis_lines
    ++ map codes (
        "        var chart = new google.visualization.LineChart(document.getElementById('chart_div'));\n"
        ∷ "       chart.draw(data, options);\n" ∷ "      }\n" ∷ "      function drawChart2() {\n"
        ∷ "        var data = google.visualization.arrayToDataTable([\n" ∷ [])

-- From the second table to the end.
unfoldable pub tail_lines : Text → List Text
tail_lines name =
    codes "        var options = {\n"
      ∷ (codes "          title: 'Instant Lustre access on /" ++ name ++ codes "',")
      ∷ axis_lines
    ++ map codes (
        "        var chart2 = new google.visualization.LineChart(document.getElementById('chart2_div'));\n"
        ∷ "        chart2.draw(data, options);\n" ∷ "      }\n" ∷ "   </script>\n" ∷ "</body>\n"
        ∷ "</html>\n" ∷ [])

abbrev pub end_of_table : Text
end_of_table = codes "\n]);\n"

abbrev pub comma_newline : Text
comma_newline = b',' ∷ b'\n' ∷ []

module _ (fl : Floats) (print_double : fl.Double → Text) where
  -- `[%d,%d,%d,%d,%d]`
  unfoldable pub count_cells : Row fl → Text
  count_cells r =
      b'[' ∷ digits 20 r.time
      ++ b',' ∷ digits 20 r.open_count
      ++ b',' ∷ digits 20 r.open_delayed
      ++ b',' ∷ digits 20 r.stat_count
      ++ b',' ∷ digits 20 r.stat_delayed
      ++ b']' ∷ []

  -- `[%d,%7.1lf,%7.1lf,%7.1lf,%7.1lf]`
  unfoldable pub rate_cells : Row fl → Text
  rate_cells r =
      b'[' ∷ digits 20 r.time
      ++ b',' ∷ print_double r.open_rate
      ++ b',' ∷ print_double r.open_delay_rate
      ++ b',' ∷ print_double r.stat_rate
      ++ b',' ∷ print_double r.stat_delay_rate
      ++ b']' ∷ []

  -- The loop over the lines of a log.
  unfoldable pub print_rows : (Row fl → Text) → Log fl → Stream → Stream
  print_rows cells [] f = f
  print_rows cells (none ∷ log) f = print_rows cells log f
  print_rows cells (some r ∷ log) f = print_rows cells log (fprintf (cells r ++ comma_newline) f)

  -- A table: its first line, the rows, and the end in the place of the last comma.
  unfoldable pub print_table : Text → (Row fl → Text) → Log fl → Stream → Stream
  unfolding fprintf print_rows back_two
  print_table title cells log f =
      fprintf end_of_table (back_two (print_rows cells log (fprintf (title ++ comma_newline) f)))

  -- The page of the file system that has this name.
  unfoldable pub write_page : Text → Text → Log fl → Stream
  unfolding fprintf_all print_table
  write_page href name log =
      let one =
        print_table count_title count_cells log (fprintf_all (head_lines href) new_stream) in
      let two = print_table rate_title rate_cells log (fprintf_all (middle_lines name) one) in
      fprintf_all (tail_lines name) two
